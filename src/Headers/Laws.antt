-- ===== src/Headers/Laws.antt =====
-- What py_headers_to_c leaves behind.
use confluent_kafka_python.Base.{
  suc, ◌≡◌, refl, sym, subst, ap, ◌⊎◌, inl, inr, Option, none, some, List, [], ◌∷◌, arith,
  Bool-cases, Option-cases,
}
use confluent_kafka_python.Base.Int.{pos, eqb_ℤ}
use confluent_kafka_python.Base.Text.{Text}
use confluent_kafka_python.Object.{
  Object, bytes, str, none_object, tuple, list, dict, Objects, nil, cons, Entries, end, entry,
  Exception, type_error, encode_error,
}
use confluent_kafka_python.World.{
  World, Env, M, Result, ok, null, fault, as_utf8, crash_process, pure, raise, ◌>>=◌,
}
use confluent_kafka_python.World.Quiet.{bind}
use confluent_kafka_python.Headers.{
  Header, header_value, add_header, add_failure, header_to_c, add_list, add_dict, new_headers,
  headers_to_c, c_string,
}

-- A text that cannot be encoded.
abbrev pub IsUncoded : Env → Type 0
IsUncoded env = (t : Text) × (env.utf8 t ≡ none)

-- A value and no other change, or an exception and no other change, or the end of the process, over a
-- text that cannot be encoded.
abbrev Converts : {A : Type 0} → Env → World → Result A × World → Type 0
Converts {A} env w r =
    ((a : A) × (r ≡ (ok a, w)))
    ⊎ ((e : Exception) × (r ≡ (null, record w { error = some e })))
    ⊎ (IsUncoded env × (r ≡ (fault, w)))

Converts->>= :
    {A B : Type 0} (env : Env) (m : M A) (k : A → M B) (w : World)
    → Converts env w (m w)
    → ((a : A) → Converts env w (k a w))
    → Converts env w ((m >>= k) w)
Converts->>= env m k w (inl (a, e)) h = subst (λ r. Converts env w (bind r k)) (sym e) (h a)
Converts->>= env m k w (inr (inl (x, e))) h =
    subst (λ r. Converts env w (bind r k)) (sym e) (inr (inl (x, refl)))
Converts->>= env m k w (inr (inr (t, e))) h =
    subst (λ r. Converts env w (bind r k)) (sym e) (inr (inr (t, refl)))

as_utf8-Converts : (env : Env) (t : Text) (w : World) → Converts env w (as_utf8 env t w)
as_utf8-Converts env t w = elim (Option-cases (env.utf8 t)) [
  | inl e ↦ inr (inr ((t, e), ap (λ o. encoded o w) e))
  | inr (b, e) ↦ inl (b, ap (λ o. encoded o w) e)
]
  where
    encoded : Option Text → M Text
    encoded o = elim o [ none ↦ crash_process | some b ↦ pure b ]

header_value-Converts : (env : Env) (o : Object) (w : World) → Converts env w (header_value env o w)
unfolding header_value
header_value-Converts env none_object w = inl (none, refl)
header_value-Converts env (bytes b) w = inl (some b, refl)
header_value-Converts env (str s) w = go (env.utf8 s)
  where
    go :
        (o : Option Text)
        → (let m : M (Option Text) = elim o [
          | none ↦ raise encode_error
          | some b ↦ pure (some (c_string b))
        ] in
            Converts env w (m w))
    go none = inr (inl (_, refl))
    go (some b) = inl (_, refl)
header_value-Converts env _ w = inr (inl (_, refl))

add_header-Converts :
    (env : Env) (k : Text) (v : Option Text) (w : World) → Converts env w (add_header env k v w)
add_header-Converts env k v w = elim (Bool-cases (eqb_ℤ (env.header_add k v) (pos 0))) [
  | inl e ↦ inl ((k, v), ground arith)
  | inr e ↦ inr (inl (add_failure env k (env.header_add k v), ground arith))
]

header_to_c-Converts :
    (env : Env) (key value : Object) (w : World) → Converts env w (header_to_c env key value w)
unfolding header_to_c
header_to_c-Converts env key value w = go (env.to_str key)
  where
    go :
        (s : Option Text)
        → (let m : M Header = elim s [
          | none ↦ raise (type_error "expected header key to be unicode string")
          | some t ↦ as_utf8 env t >>= λ k. header_value env value >>= add_header env (c_string k)
        ] in
            Converts env w (m w))
    go none = inr (inl (_, refl))
    go (some t) =
        Converts->>= env (as_utf8 env t)
          (λ k. header_value env value >>= add_header env (c_string k)) w (as_utf8-Converts env t w)
          λ k.
            Converts->>= env (header_value env value) (add_header env (c_string k)) w
              (header_value-Converts env value w) (λ v. add_header-Converts env (c_string k) v w)

add_list-Converts : (env : Env) (os : Objects) (w : World) → Converts env w (add_list env os w)
unfolding add_list
add_list-Converts env nil w = inl ([], refl)
add_list-Converts env (cons (tuple (cons k (cons v nil))) os) w =
    Converts->>= env (header_to_c env k v) (λ h. add_list env os >>= λ hs. pure (h ∷ hs)) w
      (header_to_c-Converts env k v w)
      λ h.
        Converts->>= env (add_list env os) (λ hs. pure (h ∷ hs)) w (add_list-Converts env os w)
          (λ hs. inl (h ∷ hs, refl))
add_list-Converts env (cons _ os) w =
    inr (inl (type_error "Headers are expected to be a list of (key, value) tuples", refl))

add_dict-Converts : (env : Env) (es : Entries) (w : World) → Converts env w (add_dict env es w)
unfolding add_dict
add_dict-Converts env end w = inl ([], refl)
add_dict-Converts env (entry k v es) w =
    Converts->>= env (header_to_c env k v) (λ h. add_dict env es >>= λ hs. pure (h ∷ hs)) w
      (header_to_c-Converts env k v w)
      λ h.
        Converts->>= env (add_dict env es) (λ hs. pure (h ∷ hs)) w (add_dict-Converts env es w)
          (λ hs. inl (h ∷ hs, refl))

new_headers_lem :
    (env : Env) (add : M (List Header)) (w : World)
    → Converts env
        (record w { headers = suc w.headers })
        (add (record w { headers = suc w.headers }))
    → ((hs : List Header) × (new_headers add w ≡ (ok hs, record w { headers = suc w.headers })))
      ⊎ ((e : Exception) × (new_headers add w ≡ (null, record w { error = some e })))
      ⊎ (IsUncoded env × (new_headers add w ≡ (fault, record w { headers = suc w.headers })))
new_headers_lem env add w (inl (hs, h)) = inl (hs, ground arith)
new_headers_lem env add w (inr (inl (e, h))) = inr (inl (e, ground arith))
new_headers_lem env add w (inr (inr (t, h))) = inr (inr (t, ground arith))

-- The conversion of message headers either returns one new headers object, owned by the caller, and
-- changes nothing else; or it raises an exception and owns nothing, also where it fails behind
-- headers that it has added already; or it ends the process, which happens only where there is a text
-- that cannot be encoded.
pub headers_to_c_cases :
    (env : Env) (o : Object) (w : World)
    → ((hs : List Header) × (headers_to_c env o w ≡ (ok hs, record w { headers = suc w.headers })))
      ⊎ ((e : Exception) × (headers_to_c env o w ≡ (null, record w { error = some e })))
      ⊎ (IsUncoded env × (headers_to_c env o w ≡ (fault, record w { headers = suc w.headers })))
unfolding headers_to_c
headers_to_c_cases env (list os) w =
    new_headers_lem env (add_list env os) w
      (add_list-Converts env os (record w { headers = suc w.headers }))
headers_to_c_cases env (dict es) w =
    new_headers_lem env (add_dict env es) w
      (add_dict-Converts env es (record w { headers = suc w.headers }))
headers_to_c_cases env _ w =
    inr (inl (type_error "expected headers to be dict or list of (key, value) tuples", refl))
