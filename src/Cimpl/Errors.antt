-- ===== src/Cimpl/Errors.antt =====
-- KafkaError_add_errs of confluent_kafka/src/confluent_kafka.c: librdkafka's errors as constants of
-- KafkaError, and the table of them that is appended to its documentation.
use confluent_kafka_python.Base.{
  ℕ, zero, suc, ◌+◌, ◌-◌, ◌*◌, Option, none, some, List, [], ◌∷◌, ◌++◌, length, take, leb, ◌==◌,
  if◌then◌else◌, ◌||◌,
}
use confluent_kafka_python.Base.Int.{ℤ}
use confluent_kafka_python.Base.Text.{Text, codes}

-- rd_kafka_err_desc
pub record Desc : Type 0 where
  pub code : ℤ
  pub name : Text
  pub desc : Option Text

-- The allocated buffer: what is written before the terminating NUL, and its size.
pub record Buffer : Type 0 where
  pub text : Text
  pub size : ℕ

-- memset with one character.
unfoldable pub fill : ℕ → ℕ → Text
fill zero c = []
fill (suc n) c = c ∷ fill n c

-- `%-*.*s` with one width: cut, and filled up with blanks.
unfoldable pub pad : ℕ → Text → Text
unfolding fill
pad n s = take n s ++ fill (n - length s) 32

abbrev pub col1 : ℕ
col1 = 50

abbrev pub col2 : ℕ
col2 = 100

-- The size of `tmpdoc`.
abbrev pub tmp_size : ℕ
tmp_size = 512

-- The new size: `dsize += 2` where the text and its NUL do not fit.
abbrev pub grown : Buffer → ℕ → ℕ
grown b n = if leb b.size (length b.text + n) then b.size + 2 else b.size

-- _PRINT on its expanded text. `none` is a read behind `tmpdoc`, which has no byte more than it holds
-- where snprintf wanted exactly that many, or a write behind the buffer.
unfoldable pub print : Text → Buffer → Option Buffer
print s b =
    let t = take (tmp_size - 1) s in
    let size = grown b (length t) in
    if (length s == tmp_size) || leb size (length b.text + length t)
    then none
    else some (record { text = b.text ++ t; size = size })

unfoldable pub header_text : Text
unfolding pad
header_text =
    codes "Error and event constants:\n\n"
    ++ (codes "+-" ++ fill col1 45 ++ codes "-+-" ++ fill col2 45 ++ codes "-+\n")
    ++ (codes "| "
        ++ pad col1 (codes "Constant")
        ++ codes " | "
        ++ pad col2 (codes "Description")
        ++ codes " |\n")
    ++ (codes "+=" ++ fill col1 61 ++ codes "=+=" ++ fill col2 61 ++ codes "=+\n")

unfoldable pub row_text : Text → Text → Text
unfolding pad
row_text name desc =
    (codes "| " ++ pad col1 name ++ codes " | " ++ pad col2 desc ++ codes " |\n")
    ++ (codes "+-" ++ fill col1 45 ++ codes "-+-" ++ fill col2 45 ++ codes "-+\n")

abbrev pub Constants : Type 0
Constants = List (Text × ℤ)

-- The loop: an error without a description is skipped. The constants that are set, the latest first.
unfoldable pub add_rows : List Desc → Constants → Buffer → Option (Constants × Buffer)
add_rows [] cs b = some (cs, b)
add_rows (d ∷ ds) cs b = elim d.desc [
  | none ↦ add_rows ds cs b
  | some desc ↦ elim (print (row_text d.name desc) b) [
    | none ↦ none
    | some b' ↦ add_rows ds ((d.name, d.code) ∷ cs) b'
  ]
]

-- The last line.
abbrev pub close_table : Option (Constants × Buffer) → Option (Constants × Buffer)
close_table none = none
close_table (some (cs, b)) = elim (print (codes "\n") b) [ none ↦ none | some b' ↦ some (cs, b') ]

-- The buffer as it is allocated, with the original documentation copied.
abbrev pub new_buffer : List Desc → Text → Buffer
new_buffer ds doc = record { text = doc; size = length doc + 500 + length ds * 200 }

unfoldable pub add_errs : List Desc → Constants → Text → Option (Constants × Buffer)
add_errs ds cs doc = elim (print header_text (new_buffer ds doc)) [
  | none ↦ none
  | some b ↦ close_table (add_rows ds cs b)
]
