-- ===== src/World/Quiet.antt =====
-- Actions that change nothing but the error indicator, and set it where they raise.
use confluent_kafka_python.Base.{◌≡◌, refl, sym, subst, Option, none, some, Bool, true, false}
use confluent_kafka_python.Object.{Exception}
use confluent_kafka_python.World.Monad.{World, M, Result, ok, null, fault, raise_if, ◌>>=◌}

abbrev pub Quiet : {A : Type 0} → World → Result A × World → Type 0
Quiet w (ok a, u) = (x : Option Exception) × (u ≡ record w { error = x })
Quiet w (null, u) = (x : Exception) × (u ≡ record w { error = some x })
Quiet w (fault, u) = ⊥

abbrev pub IsQuiet : {A : Type 0} → M A → Type 0
IsQuiet m = (w : World) → Quiet w (m w)

pub raise_if-IsQuiet : (b : Bool) (e : Exception) → IsQuiet (raise_if b e)
raise_if-IsQuiet true e w = (e, refl)
raise_if-IsQuiet false e w = (w.error, refl)

module _ {A B : Type 0} where
  abbrev pub bind : Result A × World → (A → M B) → Result B × World
  bind r k = elim r.0 [ ok a ↦ k a r.1 | null ↦ (null, r.1) | fault ↦ (fault, r.1) ]

  pub IsQuiet->>= :
      (m : M A) (k : A → M B) → IsQuiet m → ((a : A) → IsQuiet (k a)) → IsQuiet (m >>= k)
  IsQuiet->>= m k hm hk w = go (m w) (hm w)
    where
      go : (r : Result A × World) → Quiet w r → Quiet {A = B} w (bind r k)
      go (ok a, u) (x, e) =
          subst (λ v. Quiet {A = B} w (k a v)) (sym e)
            (again (k a (record w { error = x })) (hk a (record w { error = x })))
        where
          again : (r : Result B × World) → Quiet (record w { error = x }) r → Quiet {A = B} w r
          again (ok b, v) h = h
          again (null, v) h = h
          again (fault, v) h = h
      go (null, u) h = h
      go (fault, u) h = h

-- The two shapes of a test.
pub option-IsQuiet :
    {A B : Type 0} (o : Option A) (m : M B) (k : A → M B)
    → IsQuiet m
    → ((a : A) → IsQuiet (k a))
    → IsQuiet (elim o [ none ↦ m | some a ↦ k a ])
option-IsQuiet none m k hm hk = hm
option-IsQuiet (some a) m k hm hk = hk a

pub bool-IsQuiet :
    {B : Type 0} (b : Bool) (m n : M B)
    → IsQuiet m
    → IsQuiet n
    → IsQuiet (elim b [ true ↦ m | false ↦ n ])
bool-IsQuiet true m n hm hn = hm
bool-IsQuiet false m n hm hn = hn

-- A property of what a test leads to, at one state.
pub at_option :
    {A B : Type 0} (P : Result B × World → Type 0) (o : Option A) (m : M B) (k : A → M B)
    (w : World)
    → (o ≡ none → P (m w))
    → ((a : A) → o ≡ some a → P (k a w))
    → (let n : M B = elim o [ none ↦ m | some a ↦ k a ] in P (n w))
at_option P none m k w hm hk = hm refl
at_option P (some a) m k w hm hk = hk a refl

pub at_bool :
    {B : Type 0} (P : Result B × World → Type 0) (b : Bool) (m n : M B) (w : World)
    → (b ≡ true → P (m w))
    → (b ≡ false → P (n w))
    → (let k : M B = elim b [ true ↦ m | false ↦ n ] in P (k w))
at_bool P true m n w hm hn = hm refl
at_bool P false m n w hm hn = hn refl
