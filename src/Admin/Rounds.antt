-- ===== src/Admin/Rounds.antt =====
-- The loops of the Admin requests: conversions change nothing but the error indicator, and a round
-- makes the objects that the final index counts.
use confluent_kafka_python.Base.{
  ℕ, suc, ◌+◌, ◌≡◌, refl, sym, subst, Option, none, some, List, [], ◌∷◌, length, arith,
  if◌then◌else◌, not,
}
use confluent_kafka_python.Base.Int.{ℤ, pos, negsuc, eqb_ℤ}
use confluent_kafka_python.Base.Text.{Text}
use confluent_kafka_python.Object.{
  none_object, Object, Objects, nil, cons, bool, int, list, dict, Entries, end, entry, Exception,
  invalid_value, value_error, overflow_error,
}
use confluent_kafka_python.World.{
  World, Env, Setter, CObject, M, Result, ok, null, fault, pure, raise, raise_if, set_error, ◌>>=◌,
  as_utf8, as_utf8_lem, Encodes, ◌>>◌,
}
use confluent_kafka_python.World.Quiet.{
  bind, Quiet, IsQuiet, raise_if-IsQuiet, IsQuiet->>=, option-IsQuiet, bool-IsQuiet,
}
use confluent_kafka_python.Base.Words.{wrap_int}
use confluent_kafka_python.Headers.{c_string}
use confluent_kafka_python.Attributes.{as_int, fits_long}
use confluent_kafka_python.AdminTypes.{NewTopic, NewPartitions}
use confluent_kafka_python.Admin.Options.{own_object}
use confluent_kafka_python.Admin.Build.{
  apply, broker_ids, replica_lists, set_replica_assignment, config_name, config_value,
  config_dict_to_c, filled_round, construct_object, check_item, item, not_instance, instance_raises,
  topic_config, topic_replicas, build_topic, partitions_replicas, build_partitions, build_deletion,
  keep_object, Item, Round, made, stopped_before, stopped_after, build_all,
}

apply-IsQuiet : (env : Env) (c : CObject) (s : Setter) → IsQuiet (apply env c s)
unfolding apply
apply-IsQuiet env c s =
    option-IsQuiet (env.setter c s) (pure (s ∷ c)) (λ t. raise (invalid_value t))
      (λ w. (w.error, refl)) (λ t. λ w. (_, refl))

pub as_int-IsQuiet : (z : ℤ) → IsQuiet (as_int z)
unfolding as_int
as_int-IsQuiet z =
    bool-IsQuiet (fits_long z) (pure (wrap_int z)) (set_error overflow >> pure (negsuc 0))
      (λ w. (w.error, refl)) (λ w. (some overflow, refl))
  where
    overflow : Exception
    overflow = overflow_error "Python int too large to convert to C long"

not_lists : Exception
not_lists = value_error "replica_assignment must be a list of int lists"

broker_ids-IsQuiet : (os : Objects) → IsQuiet (broker_ids os)
unfolding broker_ids
broker_ids-IsQuiet nil = λ w. (w.error, refl)
broker_ids-IsQuiet (cons (int n) os) =
    IsQuiet->>= (as_int n) (λ z. broker_ids os >>= λ zs. pure (z ∷ zs)) (as_int-IsQuiet n)
      λ z.
        IsQuiet->>= (broker_ids os) (λ zs. pure (z ∷ zs)) (broker_ids-IsQuiet os)
          (λ zs. λ w. (w.error, refl))
broker_ids-IsQuiet (cons (bool b) os) =
    IsQuiet->>= (broker_ids os) (λ zs. pure ((if b then pos 1 else pos 0) ∷ zs))
      (broker_ids-IsQuiet os) (λ zs. λ w. (w.error, refl))
broker_ids-IsQuiet (cons _ os) = λ w. (_, refl)

replica_lists-IsQuiet :
    (env : Env) (c : CObject) (pi : ℕ) (os : Objects) → IsQuiet (replica_lists env c pi os)
unfolding replica_lists
replica_lists-IsQuiet env c pi nil = λ w. (w.error, refl)
replica_lists-IsQuiet env c pi (cons (list (cons o os)) rest) =
    IsQuiet->>= (broker_ids (cons o os))
      (λ ids. apply env c (Setter.set_replicas pi ids) >>= λ c. replica_lists env c (suc pi) rest)
      (broker_ids-IsQuiet (cons o os))
      λ ids.
        IsQuiet->>= (apply env c (Setter.set_replicas pi ids))
          (λ c. replica_lists env c (suc pi) rest)
          (apply-IsQuiet env c (Setter.set_replicas pi ids))
          (λ c. replica_lists-IsQuiet env c (suc pi) rest)
replica_lists-IsQuiet env c pi (cons _ rest) = λ w. (_, refl)

pub set_replica_assignment-IsQuiet :
    (env : Env) (c : CObject) (o : Object) (lo hi : ℤ)
    → IsQuiet (set_replica_assignment env c o lo hi)
unfolding set_replica_assignment
set_replica_assignment-IsQuiet env c (list os) lo hi =
    IsQuiet->>= _ (λ _. replica_lists env c 0 os) (raise_if-IsQuiet _ _)
      (λ _. replica_lists-IsQuiet env c 0 os)
set_replica_assignment-IsQuiet env c _ lo hi = λ w. (_, refl)

config_name-IsQuiet : (env : Env) (o : Object) → Encodes env → IsQuiet (config_name env o)
unfolding config_name
config_name-IsQuiet env o n =
    option-IsQuiet (env.to_str o) (raise (value_error "expected config name to be unicode string"))
      (λ t. as_utf8 env t >>= λ b. pure (c_string b)) (λ w. (_, refl))
      (λ t. as_utf8_lem IsQuiet env t (λ b. pure (c_string b)) n (λ b w. (w.error, refl)))

config_value-IsQuiet : (env : Env) (o : Object) → IsQuiet (config_value env o)
unfolding config_value
config_value-IsQuiet env o =
    option-IsQuiet (env.to_str o) refused encoded (λ w. (_, refl))
      (λ t.
        option-IsQuiet (env.utf8 t) refused (λ b. pure (c_string b)) (λ w. (_, refl))
          (λ b w. (w.error, refl)))
  where
    refused : M Text
    refused = raise (value_error "expect config value to be unicode string")

    encoded : Text → M Text
    encoded t = elim (env.utf8 t) [ none ↦ refused | some b ↦ pure (c_string b) ]

pub config_dict_to_c-IsQuiet :
    (env : Env) (c : CObject) (es : Entries) → Encodes env → IsQuiet (config_dict_to_c env c es)
unfolding config_dict_to_c
config_dict_to_c-IsQuiet env c end n = λ w. (w.error, refl)
config_dict_to_c-IsQuiet env c (entry ko vo es) n =
    IsQuiet->>= (config_name env ko) (λ k. config_value env vo >>= rest k)
      (config_name-IsQuiet env ko n)
      λ k. IsQuiet->>= (config_value env vo) (rest k) (config_value-IsQuiet env vo) λ v.
        IsQuiet->>= (apply env c (Setter.set_config k v)) (λ c. config_dict_to_c env c es)
          (apply-IsQuiet env c (Setter.set_config k v)) (λ c. config_dict_to_c-IsQuiet env c es n)
  where
    rest : Text → Text → M CObject
    rest k v = apply env c (Setter.set_config k v) >>= λ c. config_dict_to_c env c es

-- One object more.
abbrev pub plus : Option Exception → World → World
plus x w = record w { error = x; held = record w.held { objects = suc w.held.objects } }

abbrev pub RoundOf : World → Result Round × World → Type 0
RoundOf w (ok (made c), u) = (x : Option Exception) × (u ≡ plus x w)
RoundOf w (ok stopped_after, u) = (x : Exception) × (u ≡ plus (some x) w)
RoundOf w (ok stopped_before, u) = (x : Exception) × (u ≡ record w { error = some x })
RoundOf w (null, u) = ⊥
RoundOf w (fault, u) = ⊥

-- A round ends, with an object exactly if it says so, and sets an exception where it stops.
abbrev pub IsRound : M Round → Type 0
IsRound m = (w : World) → RoundOf w (m w)

pub filled-RoundOf :
    (c : CObject) (fill : CObject → M CObject) (x : Option Exception) (w : World)
    → IsQuiet (fill c)
    → RoundOf w (filled_round c fill (plus x w))
filled-RoundOf c fill x w q = go (fill c (plus x w)) (q (plus x w))
  where
    tried : Result CObject × World → Result (Option CObject) × World
    tried r = elim r.0 [ ok d ↦ (ok (some d), r.1) | null ↦ (ok none, r.1) | fault ↦ (fault, r.1) ]

    go :
        (r : Result CObject × World)
        → Quiet (plus x w) r
        → RoundOf w (
            bind
              (tried r)
              (λ filled. pure (elim filled [ none ↦ stopped_after | some d ↦ made d ])))
    go (ok d, u) h = h
    go (null, u) h = h
    go (fault, u) h = h

rounds_option :
    (o : Option Text) (m : M Round) (k : Text → M Round)
    → IsRound m
    → ((t : Text) → IsRound (k t))
    → IsRound (elim o [ some t ↦ k t | none ↦ m ])
rounds_option none m k hm hk = hm
rounds_option (some t) m k hm hk = hk t

construct_object-IsRound :
    (env : Env) (s : Setter) (fill : CObject → M CObject)
    → IsQuiet (fill (s ∷ []))
    → IsRound (construct_object env s fill)
construct_object-IsRound env s fill q =
    rounds_option (env.setter [] s) (own_object >> filled_round (s ∷ []) fill)
      (λ t. set_error (invalid_value t) >> pure stopped_before)
      (λ w. filled-RoundOf (s ∷ []) fill w.error w q) (λ t w. (_, refl))

check_item-IsRound :
    {A : Type 0} (make : A → M Round) (x : Item A)
    → ((a : A) → IsRound (make a))
    → IsRound (check_item make x)
check_item-IsRound make (item a) h = h a
check_item-IsRound make not_instance h = λ w. (_, refl)
check_item-IsRound make (instance_raises n) h = λ w. (_, refl)

topic_config-IsQuiet :
    (env : Env) (o : Option Object) (c : CObject) → Encodes env → IsQuiet (topic_config env o c)
topic_config-IsQuiet env (some (dict es)) c n = config_dict_to_c-IsQuiet env c es n
topic_config-IsQuiet env (some _) c n = λ w. (w.error, refl)
topic_config-IsQuiet env none c n = λ w. (w.error, refl)

topic_replicas-IsQuiet : (env : Env) (t : NewTopic) (c : CObject) → IsQuiet (topic_replicas env t c)
topic_replicas-IsQuiet env t c =
    option-IsQuiet t.replica_assignment (pure c) given (λ w. (w.error, refl))
      λ ra.
        IsQuiet->>= alone (λ _. set_replica_assignment env c ra t.num_partitions t.num_partitions)
          (raise_if-IsQuiet _ _)
          (λ _. set_replica_assignment-IsQuiet env c ra t.num_partitions t.num_partitions)
  where
    alone : M (Unit {0})
    alone =
        raise_if (not (eqb_ℤ t.replication_factor (negsuc 0)))
          (value_error "replication_factor and replica_assignment are mutually exclusive")

    given : Object → M CObject
    given ra = alone >> set_replica_assignment env c ra t.num_partitions t.num_partitions

pub build_topic-IsRound : (env : Env) (t : NewTopic) → Encodes env → IsRound (build_topic env t)
unfolding build_topic
build_topic-IsRound env t n =
    construct_object-IsRound env (Setter.new_topic t.topic t.num_partitions t.replication_factor)
      (λ c. topic_replicas env t c >>= topic_config env t.config)
      (IsQuiet->>= (topic_replicas env t _) (topic_config env t.config)
        (topic_replicas-IsQuiet env t _) (λ c. topic_config-IsQuiet env t.config c n))

pub build_partitions-IsRound : (env : Env) (p : NewPartitions) → IsRound (build_partitions env p)
unfolding build_partitions
build_partitions-IsRound env p =
    construct_object-IsRound env (Setter.new_partitions p.topic p.new_total_count)
      (partitions_replicas env p)
      (option-IsQuiet p.replica_assignment (pure c)
        (λ ra. set_replica_assignment env c ra (pos 1) p.new_total_count) (λ w. (w.error, refl))
        (λ ra. set_replica_assignment-IsQuiet env c ra (pos 1) p.new_total_count))
  where
    c : CObject
    c = Setter.new_partitions p.topic p.new_total_count ∷ []

deletion_round : (env : Env) (s : Option Text) → M Round
deletion_round env s = elim s [
  | none ↦ set_error (value_error "Expected list of topic strings") >> pure stopped_before
  | some t ↦
      as_utf8 env t >>= λ b. own_object >> pure (made (Setter.delete_topic (c_string b) ∷ []))
]

deletion_round-IsRound :
    (env : Env) (s : Option Text) → Encodes env → IsRound (deletion_round env s)
unfolding deletion_round
deletion_round-IsRound env none n = λ w. (_, refl)
deletion_round-IsRound env (some t) n =
    as_utf8_lem IsRound env t
      (λ b. own_object >> pure (made (Setter.delete_topic (c_string b) ∷ []))) n
      (λ b w. (w.error, refl))

pub build_deletion-IsRound : (env : Env) (o : Object) → Encodes env → IsRound (build_deletion env o)
unfolding build_deletion deletion_round
build_deletion-IsRound env none_object n = λ w. (_, refl)
build_deletion-IsRound env (bool b) n = deletion_round-IsRound env (env.to_str (bool b)) n
build_deletion-IsRound env o n = deletion_round-IsRound env (env.to_str o) n

-- `n` objects more.
abbrev pub more : ℕ → Option Exception → World → World
more n x w = record w { error = x; held = record w.held { objects = w.held.objects + n } }

abbrev pub Looped : ℕ → ℕ → World → Result (Option (List CObject) × ℕ) × World → Type 0
Looped i k w (ok (some cs, j), u) =
    (x : Option Exception) × (u ≡ more (length cs) x w) × (j ≡ i + length cs) × (length cs ≡ k)
Looped i k w (ok (none, j), u) = (x : Exception) × (n : ℕ) × (u ≡ more n (some x) w) × (j ≡ i + n)
Looped i k w (null, u) = ⊥
Looped i k w (fault, u) = ⊥

later :
    (i k : ℕ) (c : CObject) (x : Option Exception) (w : World)
    (r : Result (Option (List CObject) × ℕ) × World)
    → Looped (suc i) k (plus x w) r
    → Looped i (suc k) w (elim r.0 [
      | ok b ↦ (ok (keep_object c b), r.1)
      | null ↦ (null, r.1)
      | fault ↦ (fault, r.1)
    ])
later i k c x w (ok (some cs, j), u) h = (h.0, ground arith, omega (arith, h.2), omega (arith, h.3))
later i k c x w (ok (none, j), u) h = (h.0, suc h.1, ground arith, omega (arith, h.3))
later i k c x w (null, u) h = h
later i k c x w (fault, u) h = h

-- The loop makes as many objects as its final index counts, and sets an exception where it stops.
pub build_all-Looped :
    {A : Type 0} (make : A → M Round) (i : ℕ) (xs : List (Item A)) (w : World)
    → ((a : A) → IsRound (make a))
    → Looped i (length xs) w (build_all make i xs w)
unfolding build_all
build_all-Looped make i [] w h = (w.error, ground arith, omega arith, refl)
build_all-Looped make i (x ∷ xs) w h =
    go (check_item make x w) (check_item-IsRound make x h w)
      (λ v. build_all-Looped make (suc i) xs v h)
  where
    next : Round → M (Option (List CObject) × ℕ)
    next r = elim r [
      | made c ↦ build_all make (suc i) xs >>= λ b. pure (keep_object c b)
      | stopped_before ↦ pure (none, i)
      | stopped_after ↦ pure (none, suc i)
    ]

    go :
        (r : Result Round × World)
        → RoundOf w r
        → ((v : World) → Looped (suc i) (length xs) v (build_all make (suc i) xs v))
        → Looped i (suc (length xs)) w (bind r next)
    go (ok (made c), u) (x, e) rest =
        subst (λ v. Looped i (suc (length xs)) w (next (made c) v)) (sym e)
          (later i (length xs) c x w (build_all make (suc i) xs (plus x w)) (rest (plus x w)))
    go (ok stopped_before, u) (x, e) rest = (x, 0, ground arith, omega arith)
    go (ok stopped_after, u) (x, e) rest = (x, 1, ground arith, omega arith)
    go (null, u) e rest = e
    go (fault, u) e rest = e
