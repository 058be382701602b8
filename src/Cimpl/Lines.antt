-- ===== src/Cimpl/Lines.antt =====
-- The lines of the table of errors, and what one _PRINT does.
use confluent_kafka_python.Base.{
  ℕ, zero, suc, ◌+◌, ◌-◌, ◌≤◌, ◌<◌, ◌≡◌, refl, sym, subst, Option, none, some, ◌++◌, length, take,
  leb, ◌==◌, if◌then◌else◌, ◌||◌, arith, length-append, length-take, take_all,
}
use confluent_kafka_python.Base.Text.{Text, codes}
use confluent_kafka_python.Cimpl.Errors.{Buffer, fill, pad, print, grown, header_text, row_text}

pub length-fill : (n c : ℕ) → length (fill n c) ≡ n
unfolding fill
length-fill zero c = refl
length-fill (suc n) c = omega (arith, length-fill n c)

pub length-pad : (n : ℕ) (s : Text) → length (pad n s) ≡ n
unfolding pad
length-pad n s = omega (
  arith,
  length-append (take n s) (fill (n - length s) 32),
  length-take n s,
  length-fill (n - length s) 32,
)

pub line_length :
    (a b c d e : Text) (l m : ℕ)
    → length a ≡ 2
    → length b ≡ l
    → length c ≡ 3
    → length d ≡ m
    → length e ≡ 3
    → length (a ++ b ++ c ++ d ++ e) ≡ 8 + l + m
line_length a b c d e l m ha hb hc hd he = omega (
  arith,
  length-append (a ++ b ++ c ++ d) e,
  length-append (a ++ b ++ c) d,
  length-append (a ++ b) c,
  length-append a b,
  ha,
  hb,
  hc,
  hd,
  he,
)

pub dash_line :
    (n : ℕ) → length (codes "+-" ++ fill 50 n ++ codes "-+-" ++ fill 100 n ++ codes "-+\n") ≡ 158
dash_line n =
    line_length (codes "+-") (fill 50 n) (codes "-+-") (fill 100 n) (codes "-+\n") 50 100 refl
      (length-fill 50 n) refl (length-fill 100 n) refl

pub text_line :
    (s t : Text) → length (codes "| " ++ pad 50 s ++ codes " | " ++ pad 100 t ++ codes " |\n") ≡ 158
text_line s t =
    line_length (codes "| ") (pad 50 s) (codes " | ") (pad 100 t) (codes " |\n") 50 100 refl
      (length-pad 50 s) refl (length-pad 100 t) refl

-- Each row takes 316 bytes, whatever its texts.
pub length-row_text : (s t : Text) → length (row_text s t) ≡ 316
unfolding row_text
length-row_text s t = omega (
  arith,
  length-append (codes "| " ++ pad 50 s ++ codes " | " ++ pad 100 t ++ codes " |\n")
      (codes "+-" ++ fill 50 45 ++ codes "-+-" ++ fill 100 45 ++ codes "-+\n"),
  text_line s t,
  dash_line 45,
)

pub length-header_text : length header_text ≡ 502
unfolding header_text fill pad
length-header_text = refl

-- _PRINT with what is left of its text.
abbrev pub cut : Text → Buffer → Text → Option Buffer
cut s b t =
    if (length s == 512) || leb (grown b (length t)) (length b.text + length t)
    then none
    else some (record { text = b.text ++ t; size = grown b (length t) })

-- What one _PRINT of a short text does.
pub print_fits :
    (s : Text) (b : Buffer)
    → length s ≤ 511
    → length b.text + length s < b.size + 2
    → print s b ≡ some (record { text = b.text ++ s; size = grown b (length s) })
unfolding print
print_fits s b h f =
    subst (λ t. cut s b t ≡ some (record { text = b.text ++ s; size = grown b (length s) }))
      (sym (take_all 511 s h)) (ground arith)

pub print_overflows :
    (s : Text) (b : Buffer)
    → length s ≤ 511
    → b.size + 2 ≤ length b.text + length s
    → print s b ≡ none
unfolding print
print_overflows s b h f = subst (λ t. cut s b t ≡ none) (sym (take_all 511 s h)) (ground arith)
