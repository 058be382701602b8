-- ===== src/KafkaError/Laws.antt =====
-- The laws of KafkaError objects: what a new object carries of its source.
use confluent_kafka_python.Base.{
  ◌≤◌, ◌<◌, ◌≡◌, refl, ◌⊎◌, inl, inr, true, false, length, length-take, arith, take_all, Bool-cases,
  leb, ℕ, zero, suc, [], ◌∷◌, ◌++◌, take, ap,
}
use confluent_kafka_python.Base.Int.{ℤ}
use confluent_kafka_python.Base.Text.{Text}
use confluent_kafka_python.KafkaError.{LibError, buffer_len, new_from_error, str}

-- A list starts with what is taken of it.
take_split : (n : ℕ) (s : Text) → (rest : Text) × (s ≡ take n s ++ rest)
take_split zero s = (s, refl)
take_split (suc n) [] = ([], refl)
take_split (suc n) (x ∷ s) = let (rest, e) = take_split n s in (rest, ap (◌∷◌ x) e)

-- The new error carries the code and every flag of the library's error object, and its text is
-- that object's text where it has at most 511 bytes, and else its first 511 bytes.
pub new_from_error_lem :
    (err2str : ℤ → Text) (e : LibError)
    → let k = new_from_error err2str e in
      (k.code ≡ e.code)
      × (k.fatal ≡ e.is_fatal)
      × (k.retriable ≡ e.is_retriable)
      × (k.txn_requires_abort ≡ e.requires_abort)
      × (((length e.string ≤ buffer_len) × (str err2str k ≡ e.string))
          ⊎ ((buffer_len < length e.string)
              × (length (str err2str k) ≡ buffer_len)
              × ((rest : Text) × (e.string ≡ str err2str k ++ rest))))
unfolding new_from_error str
new_from_error_lem err2str e =
    (refl, refl, refl, refl, text (Bool-cases (leb (length e.string) buffer_len)))
  where
    text :
        ((leb (length e.string) buffer_len ≡ true) ⊎ (leb (length e.string) buffer_len ≡ false))
        → ((length e.string ≤ buffer_len) × (str err2str (new_from_error err2str e) ≡ e.string))
          ⊎ ((buffer_len < length e.string)
              × (length (str err2str (new_from_error err2str e)) ≡ buffer_len)
              × ((rest : Text) × (e.string ≡ str err2str (new_from_error err2str e) ++ rest)))
    text (inl h) = inl (ground arith, take_all buffer_len e.string (ground arith))
    text (inr h) =
        let over : buffer_len < length e.string = ground arith in
        inr (over, omega (arith, length-take buffer_len e.string), take_split buffer_len e.string)
