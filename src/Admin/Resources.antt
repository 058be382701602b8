-- ===== src/Admin/Resources.antt =====
-- The rounds of Admin_describe_configs and Admin_alter_configs.
use confluent_kafka_python.Base.{
  arith, suc, ◌≡◌, refl, sym, subst, Bool, true, false, Option, none, some, [], ◌∷◌,
}
use confluent_kafka_python.Base.Int.{ℤ, pos}
use confluent_kafka_python.Base.Text.{Text, codes}
use confluent_kafka_python.Object.{
  Object, int, str, Exception, type_error, invalid_value, encode_error,
}
use confluent_kafka_python.Headers.{c_string}
use confluent_kafka_python.World.{
  World, Env, Setter, CObject, M, Result, ok, null, fault, pure, raise, set_error, Encodes, ◌>>◌,
}
use confluent_kafka_python.World.Quiet.{bind, Quiet, IsQuiet, IsQuiet->>=, bool-IsQuiet}
use confluent_kafka_python.Attributes.{
  get_attr, get_int, get_string, int_value, is_int, is_str, free_string, string_value, own_string,
}
use confluent_kafka_python.Admin.Options.{own_object}
use confluent_kafka_python.Admin.Build.{
  Round, made, stopped_before, stopped_after, Resource, filled_round, alterations, new_resource,
  resource_name, resource_round, build_description, build_alteration, config_dict_to_c, is_dict,
  dict_entries,
}
use confluent_kafka_python.Admin.Rounds.{
  as_int-IsQuiet, config_dict_to_c-IsQuiet, RoundOf, IsRound, filled-RoundOf,
}

get_attr-IsQuiet :
    (name : Text) (o : Option Object) (is_type : Object → Bool) (required : Bool)
    → IsQuiet (get_attr name o is_type required)
unfolding get_attr
get_attr-IsQuiet name none is_type true = λ w. (_, refl)
get_attr-IsQuiet name none is_type false = λ w. (_, refl)
get_attr-IsQuiet name (some o) is_type required =
    bool-IsQuiet (is_type o) (pure (some o))
      (raise (type_error "Expected attribute to be of another type")) (λ w. (w.error, refl))
      (λ w. (_, refl))

int_value-IsQuiet : (d : ℤ) (o : Option Object) → IsQuiet (int_value d o)
int_value-IsQuiet d none = λ w. (w.error, refl)
int_value-IsQuiet d (some (int n)) = as_int-IsQuiet n
int_value-IsQuiet d (some _) = λ w. (w.error, refl)

get_int-IsQuiet :
    (name : Text) (o : Option Object) (d : ℤ) (required : Bool)
    → IsQuiet (get_int name o d required)
unfolding get_int
get_int-IsQuiet name o d required =
    IsQuiet->>= (get_attr name o is_int required) (int_value d)
      (get_attr-IsQuiet name o is_int required) (int_value-IsQuiet d)

-- With a copy of the text owned, if there is one.
abbrev owned : Option Text → World → World
owned none w = w
owned (some t) w = record w { held = record w.held { strings = suc w.held.strings } }

abbrev Copies : World → Result (Option Text) × World → Type 0
Copies w (ok s, u) = (x : Option Exception) × (u ≡ owned s (record w { error = x }))
Copies w (null, u) = (x : Exception) × (u ≡ record w { error = some x })
Copies w (fault, u) = ⊥

string_value-Copies : (env : Env) (o : Option Object) (w : World) → Copies w (string_value env o w)
string_value-Copies env (some (str t)) w = go (env.utf8 t)
  where
    go :
        (o : Option Text)
        → (let m : M (Option Text) = elim o [
          | none ↦ raise encode_error
          | some b ↦ own_string >> pure (some (c_string b))
        ] in
            Copies w (m w))
    go none = (_, refl)
    go (some b) = (w.error, refl)
string_value-Copies env (some _) w = (w.error, refl)
string_value-Copies env none w = (w.error, refl)

get_string-Copies :
    (env : Env) (name : Text) (o : Option Object) (required : Bool) (w : World)
    → Copies w (get_string env name o required w)
unfolding get_string
get_string-Copies env name o required w =
    go (get_attr name o is_str required w) (get_attr-IsQuiet name o is_str required w)
  where
    again :
        (x : Option Exception) (r : Result (Option Text) × World)
        → Copies (record w { error = x }) r
        → Copies w r
    again x (ok none, u) h = h
    again x (ok (some t), u) h = h
    again x (null, u) h = h
    again x (fault, u) h = h

    go : (r : Result (Option Object) × World) → Quiet w r → Copies w (bind r (string_value env))
    go (ok a, u) (x, e) =
        subst (λ v. Copies w (string_value env a v)) (sym e)
          (again x (string_value env a (record w { error = x }))
            (string_value-Copies env a (record w { error = x })))
    go (null, u) h = h
    go (fault, u) h = h

new_resource-RoundOf :
    (env : Env) (restype : ℤ) (fill : CObject → M CObject) (name : Option Text) (w : World)
    → ((c : CObject) → IsQuiet (fill c))
    → RoundOf w (new_resource env restype fill name (owned name w))
new_resource-RoundOf env restype fill none w q =
    at_resource (env.setter [] (Setter.new_resource restype none))
  where
    c : CObject
    c = Setter.new_resource restype none ∷ []

    at_resource :
        (r : Option Text)
        → (let m : M Round = elim r [
          | some t ↦ set_error (invalid_value t) >> (free_string none >> pure stopped_before)
          | none ↦ own_object >> (free_string none >> filled_round c fill)
        ] in
            RoundOf w (m w))
    at_resource none = filled-RoundOf c fill w.error w (q c)
    at_resource (some t) = (_, refl)
new_resource-RoundOf env restype fill (some s) w q =
    at_resource (env.setter [] (Setter.new_resource restype (some s)))
  where
    c : CObject
    c = Setter.new_resource restype (some s) ∷ []

    at_resource :
        (r : Option Text)
        → (let m : M Round = elim r [
          | some t ↦ set_error (invalid_value t) >> (free_string (some s) >> pure stopped_before)
          | none ↦ own_object >> (free_string (some s) >> filled_round c fill)
        ] in
            RoundOf w (m (owned (some s) w)))
    at_resource none = filled-RoundOf c fill w.error w (q c)
    at_resource (some t) = (_, refl)

-- The state of the error indicator before a round does not matter.
forget_error :
    (x : Option Exception) (w : World) (r : Result Round × World)
    → RoundOf (record w { error = x }) r
    → RoundOf w r
forget_error x w (ok (made c), u) h = h
forget_error x w (ok stopped_before, u) h = h
forget_error x w (ok stopped_after, u) h = h
forget_error x w (null, u) h = h
forget_error x w (fault, u) h = h

tried : {A : Type 0} → Result A × World → Result (Option A) × World
tried r = elim r.0 [ ok a ↦ (ok (some a), r.1) | null ↦ (ok none, r.1) | fault ↦ (fault, r.1) ]

resource_name-IsRound :
    (env : Env) (r : Resource) (fill : CObject → M CObject) (restype : Option ℤ)
    → ((c : CObject) → IsQuiet (fill c))
    → (x : Option Exception) (w : World) → (restype ≡ none → (e : Exception) × (x ≡ some e))
    → RoundOf w (resource_name env r fill restype (record w { error = x }))
unfolding tried
resource_name-IsRound env r fill none q x w h = let e = h refl in (e.0, ground arith)
resource_name-IsRound env r fill (some restype) q x w h = forget_error x w _ (
    go v (get_string env (codes "name") r.name false v)
      (get_string-Copies env (codes "name") r.name false v))
  where
    v : World
    v = record w { error = x }

    next : Option (Option Text) → M Round
    next name = elim name [
      | none ↦ pure stopped_before
      | some name ↦ new_resource env restype fill name
    ]

    go :
        (v : World) (s : Result (Option Text) × World)
        → Copies v s
        → RoundOf v (bind (tried s) next)
    go v (ok none, u) (y, e) =
        subst (λ u. RoundOf v (new_resource env restype fill none u)) (sym e)
          (forget_error y v _
            (new_resource-RoundOf env restype fill none (record v { error = y }) q))
    go v (ok (some t), u) (y, e) =
        subst (λ u. RoundOf v (new_resource env restype fill (some t) u)) (sym e)
          (forget_error y v _
            (new_resource-RoundOf env restype fill (some t) (record v { error = y }) q))
    go v (null, u) h = h
    go v (fault, u) h = h

resource_round-IsRound :
    (env : Env) (fill : CObject → M CObject) (r : Resource)
    → ((c : CObject) → IsQuiet (fill c))
    → IsRound (resource_round env fill r)
unfolding tried
resource_round-IsRound env fill r q w =
    go (get_int (codes "restype_int") r.restype_int (pos 0) false w)
      (get_int-IsQuiet (codes "restype_int") r.restype_int (pos 0) false w)
  where
    go : (s : Result ℤ × World) → Quiet w s → RoundOf w (bind (tried s) (resource_name env r fill))
    go (ok z, u) (x, e) =
        subst (λ u. RoundOf w (resource_name env r fill (some z) u)) (sym e)
          (resource_name-IsRound env r fill (some z) q x w (λ p. cc))
    go (null, u) (x, e) =
        subst (λ u. RoundOf w (resource_name env r fill none u)) (sym e)
          (resource_name-IsRound env r fill none q (some x) w (λ p. (x, refl)))
    go (fault, u) h = h

pub build_description-IsRound : (env : Env) (r : Resource) → IsRound (build_description env r)
unfolding build_description
build_description-IsRound env r = resource_round-IsRound env pure r (λ c w. (w.error, refl))

pub build_alteration-IsRound :
    (env : Env) (r : Resource) → Encodes env → IsRound (build_alteration env r)
unfolding build_alteration
build_alteration-IsRound env r n = resource_round-IsRound env (alterations env r) r λ c.
    IsQuiet->>= (get_attr (codes "set_config_dict") r.set_config_dict is_dict true)
      (λ d. config_dict_to_c env c (dict_entries d))
      (get_attr-IsQuiet (codes "set_config_dict") r.set_config_dict is_dict true)
      (λ d. config_dict_to_c-IsQuiet env c (dict_entries d) n)
