-- ===== src/Cimpl/Rows.antt =====
-- The rows of the table of errors.
use confluent_kafka_python.Base.{
  ℕ, suc, ◌+◌, ◌*◌, ◌≤◌, ◌<◌, ◌≡◌, refl, sym, ◌∙◌, ap, subst, inl, inr, true, false, Option, none,
  some, List, [], ◌∷◌, ◌++◌, length, leb, arith, length-append, Bool-cases,
}
use confluent_kafka_python.Base.Text.{Text}
use mathlib.Core.List.{append-nil, append_assoc}
use confluent_kafka_python.Cimpl.Errors.{Desc, Buffer, print, grown, row_text, Constants, add_rows}
use confluent_kafka_python.Cimpl.Lines.{length-row_text, print_fits, print_overflows}

-- The table's rows, their number and the constants, as one would write them down.
unfoldable pub rows : List Desc → Text
rows [] = []
rows (d ∷ ds) = elim d.desc [ none ↦ rows ds | some desc ↦ row_text d.name desc ++ rows ds ]

unfoldable pub described : List Desc → ℕ
described [] = 0
described (d ∷ ds) = elim d.desc [ none ↦ described ds | some desc ↦ suc (described ds) ]

unfoldable pub constants : List Desc → Constants → Constants
constants [] cs = cs
constants (d ∷ ds) cs = elim d.desc [
  | none ↦ constants ds cs
  | some desc ↦ constants ds ((d.name, d.code) ∷ cs)
]

pub described_le : (ds : List Desc) → described ds ≤ length ds
unfolding described
described_le [] = omega arith
described_le (d ∷ ds) = go d.desc (described_le ds)
  where
    go :
        (o : Option Text)
        → described ds ≤ length ds
        → let n : ℕ = elim o [ none ↦ described ds | some t ↦ suc (described ds) ] in
          n ≤ suc (length ds)
    go none h = omega (arith, h)
    go (some t) h = omega (arith, h)

pub length-rows : (ds : List Desc) → length (rows ds) ≡ 316 * described ds
unfolding described rows
length-rows [] = refl
length-rows (d ∷ ds) = go d.desc (length-rows ds)
  where
    go :
        (o : Option Text)
        → length (rows ds) ≡ 316 * described ds
        → let t : Text = elim o [ none ↦ rows ds | some desc ↦ row_text d.name desc ++ rows ds ] in
          let n : ℕ = elim o [ none ↦ described ds | some t ↦ suc (described ds) ] in
          length t ≡ 316 * n
    go none h = h
    go (some t) h =
        omega (arith, h, length-append (row_text d.name t) (rows ds), length-row_text d.name t)

-- What the rows leave: their text behind the buffer's, with room for the NUL.
abbrev pub Fitted : List Desc → Constants → Buffer → Option (Constants × Buffer) → Type 0
Fitted ds cs b o =
    (n : ℕ) × (o ≡ some (constants ds cs, record { text = b.text ++ rows ds; size = n }))
    × (length (b.text ++ rows ds) < n)

-- The rows of an error, by its description.
abbrev pub one_row :
    Desc → List Desc → Constants → Buffer → Option Text → Option (Constants × Buffer)
one_row d ds cs b o = elim o [
  | none ↦ add_rows ds cs b
  | some desc ↦ elim (print (row_text d.name desc) b) [
    | none ↦ none
    | some b' ↦ add_rows ds ((d.name, d.code) ∷ cs) b'
  ]
]

abbrev pub then_rows : Desc → List Desc → Constants → Option Buffer → Option (Constants × Buffer)
then_rows d ds cs o = elim o [ none ↦ none | some b' ↦ add_rows ds ((d.name, d.code) ∷ cs) b' ]

pub grown_room :
    (s : Text) (b : Buffer) (k : ℕ)
    → length s ≡ 316
    → length b.text + 316 * suc k < b.size + 2
    → (length (b.text ++ s) < grown b (length s))
      × (length (b.text ++ s) + 316 * k < grown b (length s) + 2)
grown_room s b k h f =
    (ground (arith, length-append b.text s), ground (arith, length-append b.text s))

pub add_rows_fits :
    (ds : List Desc) (cs : Constants) (b : Buffer)
    → length b.text < b.size
    → length b.text + 316 * described ds < b.size + 2
    → Fitted ds cs b (add_rows ds cs b)
unfolding add_rows described rows constants
add_rows_fits [] cs b t f = (
  b.size,
  ap (λ t. some (cs, record { text = t; size = b.size })) (sym (append-nil b.text)),
  subst (λ t. length t < b.size) (sym (append-nil b.text)) t,
)
add_rows_fits (d ∷ ds) cs b t f = go d.desc f (add_rows_fits ds)
  where
    go :
        (o : Option Text)
        → length b.text + 316 * elim o [ none ↦ described ds | some t ↦ suc (described ds) ]
          < b.size + 2
        → ((cs : Constants) (b : Buffer)
            → length b.text < b.size
            → length b.text + 316 * described ds < b.size + 2
            → Fitted ds cs b (add_rows ds cs b))
        → (n : ℕ) × (one_row d ds cs b o
            ≡ some (
              elim o [ none ↦ constants ds cs | some desc ↦ constants ds ((d.name, d.code) ∷ cs) ],
              record {
                text =
                    b.text
                    ++ elim o [ none ↦ rows ds | some desc ↦ row_text d.name desc ++ rows ds ];
                size = n;
              },
            ))
          × (length
                (b.text ++ elim o [ none ↦ rows ds | some desc ↦ row_text d.name desc ++ rows ds ])
              < n)
    go none f next = next cs b t f
    go (some desc) f next =
        let s : Text = row_text d.name desc in
        let l : length s ≡ 316 = length-row_text d.name desc in
        let b1 : Buffer = record { text = b.text ++ s; size = grown b (length s) } in
        let r = grown_room s b (described ds) l f in
        let (n, e, h) = next ((d.name, d.code) ∷ cs) b1 r.0 r.1 in
        let q = append_assoc b.text s (rows ds) in
        (
          n,
          ap (then_rows d ds cs) (print_fits s b (omega (arith, l)) (omega (arith, l, f)))
              ∙ e
              ∙ ap (λ t. some (constants ds ((d.name, d.code) ∷ cs), record { text = t; size = n }))
                  q,
          subst (λ t. length t < n) q h,
        )

pub more_rows :
    (s : Text) (b : Buffer) (k : ℕ)
    → length s ≡ 316
    → length b.text + 316 < b.size + 2
    → b.size + 2 ≤ length b.text + 316 * suc k
    → (0 < k) × (grown b (length s) + 2 ≤ length (b.text ++ s) + 316 * k)
more_rows s b k h g f = (omega (arith, g, f), ground (arith, length-append b.text s))

-- Where the rows do not fit, one of them is written behind the buffer.
pub add_rows_overflows :
    (ds : List Desc) (cs : Constants) (b : Buffer)
    → 0 < described ds
    → b.size + 2 ≤ length b.text + 316 * described ds
    → add_rows ds cs b ≡ none
unfolding add_rows described
add_rows_overflows [] cs b p f = absurd (omega (arith, p))
add_rows_overflows (d ∷ ds) cs b p f = go d.desc p f (add_rows_overflows ds)
  where
    go :
        (o : Option Text)
        → 0 < elim o [ none ↦ described ds | some t ↦ suc (described ds) ]
        → b.size + 2
          ≤ length b.text + 316 * elim o [ none ↦ described ds | some t ↦ suc (described ds) ]
        → ((cs : Constants) (b : Buffer)
            → 0 < described ds
            → b.size + 2 ≤ length b.text + 316 * described ds
            → add_rows ds cs b ≡ none)
        → one_row d ds cs b o ≡ none
    go none p f next = next cs b p f
    go (some desc) p f next =
        let s : Text = row_text d.name desc in
        let l : length s ≡ 316 = length-row_text d.name desc in
        elim (Bool-cases (leb (b.size + 2) (length b.text + 316))) [
          | inl e ↦
              ap (then_rows d ds cs) (print_overflows s b (omega (arith, l)) (room e (length s) l))
          | inr e ↦
              let m = more_rows s b (described ds) l (no_room e) f in
              ap (then_rows d ds cs) (print_fits s b (omega (arith, l)) (less e (length s) l))
              ∙ next ((d.name, d.code) ∷ cs) _ m.0 m.1
        ]
      where
        room :
            leb (b.size + 2) (length b.text + 316) ≡ true
            → (m : ℕ) → m ≡ 316
            → b.size + 2 ≤ length b.text + m
        room e m l = ground arith

        no_room : leb (b.size + 2) (length b.text + 316) ≡ false → length b.text + 316 < b.size + 2
        no_room e = ground arith

        less :
            leb (b.size + 2) (length b.text + 316) ≡ false
            → (m : ℕ) → m ≡ 316
            → length b.text + m < b.size + 2
        less e m l = ground arith
