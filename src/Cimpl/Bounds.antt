-- ===== src/Cimpl/Bounds.antt =====
-- When the table of errors fits its buffer.
use confluent_kafka_python.Base.{
  ℕ, ◌+◌, ◌*◌, ◌≤◌, ◌<◌, ◌≡◌, ◌∙◌, ap, ◌⊎◌, inl, inr, true, false, Option, none, some, List, [],
  ◌∷◌, ◌++◌, length, ltb, arith, ltb→lt, length-append, Bool-cases,
}
use confluent_kafka_python.Base.Text.{Text, codes}
use confluent_kafka_python.Cimpl.Errors.{
  Desc, Buffer, print, grown, header_text, Constants, add_rows, close_table, new_buffer, add_errs,
}
use confluent_kafka_python.Cimpl.Lines.{length-header_text, print_fits, print_overflows}
use confluent_kafka_python.Cimpl.Rows.{
  rows, described, constants, add_rows_fits, add_rows_overflows,
}

close_fits :
    (cs : Constants) (t : Text) (n : ℕ)
    → length t < n
    → close_table (some (cs, record { text = t; size = n }))
      ≡ some (cs, record { text = t ++ codes "\n"; size = grown (record { text = t; size = n }) 1 })
close_fits cs t n h =
    ap (λ (o : Option Buffer). elim o [ none ↦ none | some b' ↦ some (cs, b') ])
      (print_fits (codes "\n") (record { text = t; size = n }) (omega arith) (omega (arith, h)))

abbrev after_header : List Desc → Constants → Option Buffer → Option (Constants × Buffer)
after_header ds cs o = elim o [ none ↦ none | some b ↦ close_table (add_rows ds cs b) ]

-- The buffer behind the header, of a table with an error.
abbrev headed : List Desc → Text → Buffer
headed ds doc = record { text = doc ++ header_text; size = length doc + 500 + length ds * 200 }

headed_lem :
    (ds : List Desc) (doc : Text)
    → 0 < length ds
    → print header_text (new_buffer ds doc) ≡ some (headed ds doc)
headed_lem ds doc h =
    print_fits header_text (new_buffer ds doc) (omega (arith, length-header_text))
      (omega (arith, length-header_text, h))
    ∙ ap (λ n. some (record { text = doc ++ header_text; size = n }))
        (not_grown (length header_text) length-header_text)
  where
    not_grown : (n : ℕ) → n ≡ 502 → grown (new_buffer ds doc) n ≡ length doc + 500 + length ds * 200
    not_grown n e = ground arith

fits :
    (ds : List Desc) (cs : Constants) (doc : Text)
    → 316 * described ds < 200 * length ds
    → (n : ℕ) × (add_errs ds cs doc
        ≡ some (
          constants ds cs,
          record { text = doc ++ header_text ++ rows ds ++ codes "\n"; size = n },
        ))
unfolding add_errs
fits ds cs doc h =
    let a = length-append doc header_text in
    let (n, e, t) =
      add_rows_fits ds cs (headed ds doc) (omega (arith, a, length-header_text, h))
        (omega (arith, a, length-header_text, h)) in
    (
      _,
      ap (after_header ds cs) (headed_lem ds doc (omega (arith, h)))
          ∙ ap close_table e
          ∙ close_fits (constants ds cs) (doc ++ header_text ++ rows ds) n t,
    )

overflows :
    (ds : List Desc) (cs : Constants) (doc : Text)
    → 200 * length ds ≤ 316 * described ds
    → add_errs ds cs doc ≡ none
unfolding add_errs
overflows [] cs doc h = ap (after_header [] cs) (
    print_overflows header_text (new_buffer [] doc) (omega (arith, length-header_text))
      (omega (arith, length-header_text)))
overflows (d ∷ ds) cs doc h =
    let a = length-append doc header_text in
    ap (after_header (d ∷ ds) cs) (headed_lem (d ∷ ds) doc (omega arith))
    ∙ ap close_table (
        add_rows_overflows (d ∷ ds) cs (headed (d ∷ ds) doc) (omega (arith, h))
          (omega (arith, a, length-header_text, h)))

-- For every table of errors and every documentation: where 316 bytes for each described error are
-- fewer than 200 bytes for each error, described or not, nothing is written behind the buffer, each
-- described error is a constant with its code, and the documentation is the old one with the table's
-- header, one row for each of them and an empty line; and otherwise more is written than the buffer
-- holds.
pub add_errs_lem :
    (ds : List Desc) (cs : Constants) (doc : Text)
    → ((316 * described ds < 200 * length ds)
        × ((n : ℕ) × (add_errs ds cs doc
              ≡ some (
                constants ds cs,
                record { text = doc ++ header_text ++ rows ds ++ codes "\n"; size = n },
              ))))
      ⊎ ((200 * length ds ≤ 316 * described ds) × (add_errs ds cs doc ≡ none))
add_errs_lem ds cs doc = elim (Bool-cases (ltb (316 * described ds) (200 * length ds))) [
  | inl e ↦ inl (below e, fits ds cs doc (below e))
  | inr e ↦ inr (above e, overflows ds cs doc (above e))
]
  where
    below : ltb (316 * described ds) (200 * length ds) ≡ true → 316 * described ds < 200 * length ds
    below e = ltb→lt (316 * described ds) (200 * length ds) e

    above :
        ltb (316 * described ds) (200 * length ds) ≡ false → 200 * length ds ≤ 316 * described ds
    above e = ground arith
