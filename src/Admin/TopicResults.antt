-- ===== src/Admin/TopicResults.antt =====
-- What Admin_c_topic_result_to_py says of each topic.
use confluent_kafka_python.Base.{
  ◌≡◌, refl, sym, ◌∙◌, subst, ap, Bool, true, false, Option, none, some, List, [], ◌∷◌,
  if◌then◌else◌, arith,
}
use confluent_kafka_python.Base.Int.{ℤ}
use confluent_kafka_python.Base.Text.{Text, strcmp, Sign, same, less, more, eq_of_strcmp}
use confluent_kafka_python.Object.{Object, str, dict, Entries, end, entry}
use confluent_kafka_python.Dict.{is_text, set_text, find_item}
use confluent_kafka_python.Admin.Event.{
  TopicResult, topic_error, add_topic_results, topic_result_to_py,
}

-- The last result of a name.
unfoldable pub last_named : Text → List TopicResult → Option TopicResult
last_named t [] = none
last_named t (r ∷ rs) = elim (last_named t rs) [
  | some s ↦ some s
  | none ↦ if is_text t (str r.name) then some r else none
]

abbrev pub error_of : (ℤ → Text) → Option TopicResult → Option Object → Option Object
error_of err2str (some r) before = some (topic_error err2str r)
error_of err2str none before = before

is_text-str : (t u : Text) → is_text t (str u) ≡ true → t ≡ u
is_text-str t u e = eq_of_strcmp t u (go (strcmp t u) e)
  where
    tested : Sign → Bool
    tested s = elim s [ same ↦ true | _ ↦ false ]

    go : (s : Sign) → tested s ≡ true → s ≡ same
    go same h = refl
    go less h = ground arith
    go more h = ground arith

-- A key that is a text agrees with it on every text.
agreeing : (t u : Text) (k : Object) → is_text u k ≡ true → is_text t k ≡ is_text t (str u)
agreeing t u (str v) e = ap (λ x. is_text t (str x)) (sym (is_text-str u v e))
agreeing t u _ e = ground arith

apart :
    (t u : Text) (k : Object)
    → is_text u k ≡ false
    → is_text t k ≡ true
    → is_text t (str u) ≡ true
    → ⊥
apart t u k h p q = Bool-apart (sym h ∙ subst (λ v. is_text v k ≡ true) (is_text-str t u q) p)
  where
    Bool-apart : false ≡ true → ⊥
    Bool-apart e = ground arith

replaced :
    {A : Type 0} (b p q : Bool) (v x f g : A)
    → (b ≡ true → p ≡ q)
    → (b ≡ false → p ≡ true → q ≡ true → ⊥)
    → g ≡ (if q then v else f)
    → (if b then (if p then v else f) else (if p then x else g))
      ≡ (if q then v else (if p then x else f))
replaced true true true v x f g h k e = refl
replaced true false false v x f g h k e = refl
replaced true true false v x f g h k e = ground arith
replaced true false true v x f g h k e = ground arith
replaced false true true v x f g h k e = absurd (k refl refl refl)
replaced false true false v x f g h k e = refl
replaced false false q v x f g h k e = e

find_item-set_text :
    (t u : Text) (v : Object) (es : Entries)
    → find_item t (set_text u v es) ≡ (if is_text t (str u) then some v else find_item t es)
unfolding find_item set_text
find_item-set_text t u v end = refl
find_item-set_text t u v (entry k x es) =
    at_key (is_text u k)
    ∙ replaced (is_text u k) (is_text t k) (is_text t (str u)) (some v) (some x) (find_item t es)
        (find_item t (set_text u v es)) (agreeing t u k) (apart t u k) (find_item-set_text t u v es)
  where
    at_key :
        (b : Bool)
        → find_item t (if b then entry k v es else entry k x (set_text u v es)) ≡ (
            if b
            then (if is_text t k then some v else find_item t es)
            else (if is_text t k then some x else find_item t (set_text u v es)))
    at_key true = refl
    at_key false = refl

named :
    (err2str : ℤ → Text) (b : Bool) (r : TopicResult) (o : Option TopicResult)
    (before : Option Object)
    → error_of err2str o (if b then some (topic_error err2str r) else before)
      ≡ error_of err2str (elim o [ some s ↦ some s | none ↦ if b then some r else none ]) before
named err2str b r (some s) before = refl
named err2str true r none before = refl
named err2str false r none before = refl

add_topic_results-find_item :
    (err2str : ℤ → Text) (t : Text) (rs : List TopicResult) (es : Entries)
    → find_item t (add_topic_results err2str rs es)
      ≡ error_of err2str (last_named t rs) (find_item t es)
unfolding add_topic_results last_named
add_topic_results-find_item err2str t [] es = refl
add_topic_results-find_item err2str t (r ∷ rs) es =
    add_topic_results-find_item err2str t rs (set_text r.name (topic_error err2str r) es)
    ∙ ap (error_of err2str (last_named t rs))
        (find_item-set_text t r.name (topic_error err2str r) es)
    ∙ named err2str (is_text t (str r.name)) r (last_named t rs) (find_item t es)

-- The dict of a result of topics has under each name the error of the last result of that name, None
-- where that is no error, and no item under a name without results.
pub topic_result_to_py-find_item :
    (err2str : ℤ → Text) (rs : List TopicResult) (t : Text)
    → (es : Entries) × (topic_result_to_py err2str rs ≡ dict es)
      × (find_item t es ≡ error_of err2str (last_named t rs) none)
unfolding topic_result_to_py find_item
topic_result_to_py-find_item err2str rs t =
    (add_topic_results err2str rs end, refl, add_topic_results-find_item err2str t rs end)
