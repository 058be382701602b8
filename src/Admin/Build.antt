-- ===== src/Admin/Build.antt =====
-- The C objects of Admin requests, made of Python objects: the loops of confluent_kafka/src/Admin.c.
use confluent_kafka_python.Base.{
  ℕ, suc, Bool, true, false, not, ◌||◌, Option, none, some, List, [], ◌∷◌, if◌then◌else◌,
}
use confluent_kafka_python.Base.Int.{ℤ, pos, negsuc, eqb_ℤ, ltb_ℤ}
use confluent_kafka_python.Base.Text.{Text, codes}
use confluent_kafka_python.Object.{
  Object, none_object, bool, int, list, dict, Objects, nil, cons, Entries, end, entry, value_error,
  invalid_value, application,
}
use confluent_kafka_python.Headers.{c_string}
use confluent_kafka_python.World.{
  Env, Setter, CObject, M, as_utf8, pure, raise, raise_if, set_error, ◌>>=◌, ◌>>◌,
}
use confluent_kafka_python.Attributes.{as_int, try, get_attr, get_int, get_string, free_string}
use confluent_kafka_python.AdminTypes.{NewTopic, NewPartitions}
use confluent_kafka_python.Admin.Options.{own_object}

-- A setter of an object, whose error is a ValueError.
unfoldable pub apply : Env → CObject → Setter → M CObject
apply env c s = elim (env.setter c s) [ none ↦ pure (s ∷ c) | some t ↦ raise (invalid_value t) ]

-- The loop over one list of replicas; a bool is an int.
unfoldable pub broker_ids : Objects → M (List ℤ)
unfolding as_int
broker_ids nil = pure []
broker_ids (cons (int n) os) = as_int n >>= λ z. broker_ids os >>= λ zs. pure (z ∷ zs)
broker_ids (cons (bool b) os) = broker_ids os >>= λ zs. pure ((if b then pos 1 else pos 0) ∷ zs)
broker_ids (cons _ os) = raise (value_error "replica_assignment must be a list of int lists")

-- The loop over the partitions, from the one with number `pi`.
unfoldable pub replica_lists : Env → CObject → ℕ → Objects → M CObject
unfolding apply broker_ids
replica_lists env c pi nil = pure c
replica_lists env c pi (cons (list (cons o os)) rest) = broker_ids (cons o os) >>= λ ids.
    apply env c (Setter.set_replicas pi ids) >>= λ c. replica_lists env c (suc pi) rest
replica_lists env c pi (cons _ rest) =
    raise (value_error "replica_assignment must be a list of int lists")

abbrev pub size : Objects → ℕ
size nil = 0
size (cons o os) = suc (size os)

-- Admin_set_replica_assignment, with the bounds of the outer size.
unfoldable pub set_replica_assignment : Env → CObject → Object → ℤ → ℤ → M CObject
unfolding replica_lists
set_replica_assignment env c (list os) min_count max_count =
    raise_if (ltb_ℤ (pos (size os)) min_count || ltb_ℤ max_count (pos (size os)))
      (value_error "replica_assignment must be a list of int lists")
    >> replica_lists env c 0 os
set_replica_assignment env c _ min_count max_count =
    raise (value_error "replica_assignment must be a list of int lists")

-- The name of a property: a NULL of cfl_PyUnistr_AsUTF8 is not checked for.
unfoldable pub config_name : Env → Object → M Text
config_name env o = elim (env.to_str o) [
  | none ↦ raise (value_error "expected config name to be unicode string")
  | some t ↦ as_utf8 env t >>= λ b. pure (c_string b)
]

-- Its value: one that has no str, or whose str cannot be encoded, is refused.
unfoldable pub config_value : Env → Object → M Text
config_value env o = elim (env.to_str o) [
  | none ↦ raise (value_error "expect config value to be unicode string")
  | some t ↦ elim (env.utf8 t) [
    | none ↦ raise (value_error "expect config value to be unicode string")
    | some b ↦ pure (c_string b)
  ]
]

-- Admin_config_dict_to_c
unfoldable pub config_dict_to_c : Env → CObject → Entries → M CObject
unfolding apply config_name config_value
config_dict_to_c env c end = pure c
config_dict_to_c env c (entry ko vo es) = config_name env ko >>= λ k. config_value env vo >>= λ v.
    apply env c (Setter.set_config k v) >>= λ c. config_dict_to_c env c es

-- What PyObject_IsInstance says of an element of the list.
pub data Item (A : Type 0) : Type 0 where
  item : A → Item A
  not_instance : Item A
  instance_raises : ℕ → Item A

-- How a round of the loop ends: with an object, or by `goto err` before the object of the round was
-- made or behind `i++`. An exception is set in both.
pub data Round : Type 0 where
  made : CObject → Round
  stopped_before stopped_after : Round

abbrev pub check_item : {A : Type 0} → (A → M Round) → Item A → M Round
check_item make (item a) = make a
check_item make not_instance =
    set_error (value_error "Expected list of objects") >> pure stopped_before
check_item make (instance_raises n) = set_error (application n) >> pure stopped_before

-- What is done with a new object before the next round.
abbrev pub filled_round : CObject → (CObject → M CObject) → M Round
filled_round c fill = do
  filled ← try (fill c)
  pure (elim filled [ none ↦ stopped_after | some d ↦ made d ])

-- A constructor, and what is done with the object before the next round.
abbrev pub construct_object : Env → Setter → (CObject → M CObject) → M Round
construct_object env s fill = elim (env.setter [] s) [
  | some errstr ↦ set_error (invalid_value errstr) >> pure stopped_before
  | none ↦ do own_object; filled_round (s ∷ []) fill
]

abbrev pub topic_config : Env → Option Object → CObject → M CObject
topic_config env (some (dict es)) c = config_dict_to_c env c es
topic_config env _ c = pure c

abbrev pub topic_replicas : Env → NewTopic → CObject → M CObject
topic_replicas env t c = elim t.replica_assignment [
  | none ↦ pure c
  | some ra ↦ do
    raise_if (not (eqb_ℤ t.replication_factor (negsuc 0)))
        (value_error "replication_factor and replica_assignment are mutually exclusive")
    set_replica_assignment env c ra t.num_partitions t.num_partitions
]

-- The round of Admin_create_topics.
unfoldable pub build_topic : Env → NewTopic → M Round
unfolding set_replica_assignment config_dict_to_c
build_topic env t =
    construct_object env (Setter.new_topic t.topic t.num_partitions t.replication_factor)
      (λ c. topic_replicas env t c >>= topic_config env t.config)

abbrev pub partitions_replicas : Env → NewPartitions → CObject → M CObject
partitions_replicas env p c = elim p.replica_assignment [
  | none ↦ pure c
  | some ra ↦ set_replica_assignment env c ra (pos 1) p.new_total_count
]

-- The round of Admin_create_partitions.
unfoldable pub build_partitions : Env → NewPartitions → M Round
unfolding set_replica_assignment
build_partitions env p =
    construct_object env (Setter.new_partitions p.topic p.new_total_count)
      (partitions_replicas env p)

-- The round of Admin_delete_topics; rd_kafka_DeleteTopic_new does not fail.
unfoldable pub build_deletion : Env → Object → M Round
build_deletion env none_object =
    set_error (value_error "Expected list of topic strings") >> pure stopped_before
build_deletion env o = elim (env.to_str o) [
  | none ↦ set_error (value_error "Expected list of topic strings") >> pure stopped_before
  | some t ↦
      as_utf8 env t >>= λ b. own_object >> pure (made (Setter.delete_topic (c_string b) ∷ []))
]

-- The attributes of a ConfigResource that the extension reads, as far as it has them.
pub record Resource : Type 0 where
  pub restype_int : Option Object
  pub name : Option Object
  pub set_config_dict : Option Object

abbrev pub is_dict : Object → Bool
is_dict (dict es) = true
is_dict _ = false

abbrev pub dict_entries : Option Object → Entries
dict_entries (some (dict es)) = es
dict_entries _ = end

-- The end of the round of Admin_alter_configs.
abbrev pub alterations : Env → Resource → CObject → M CObject
alterations env r c = do
  d ← get_attr (codes "set_config_dict") r.set_config_dict is_dict true
  config_dict_to_c env c (dict_entries d)

-- rd_kafka_ConfigResource_new on the name, whose copy is freed on both branches.
abbrev pub new_resource : Env → ℤ → (CObject → M CObject) → Option Text → M Round
new_resource env restype fill name = elim (env.setter [] (Setter.new_resource restype name)) [
  | some errstr ↦ do set_error (invalid_value errstr); free_string name; pure stopped_before
  | none ↦ do
    own_object
    free_string name
    filled_round (Setter.new_resource restype name ∷ []) fill
]

abbrev pub resource_name : Env → Resource → (CObject → M CObject) → Option ℤ → M Round
resource_name env r fill none = pure stopped_before
resource_name env r fill (some restype) = do
  name ← try (get_string env (codes "name") r.name false)
  elim name [ none ↦ pure stopped_before | some name ↦ new_resource env restype fill name ]

abbrev pub resource_round : Env → (CObject → M CObject) → Resource → M Round
resource_round env fill r = do
  restype ← try (get_int (codes "restype_int") r.restype_int (pos 0) false)
  resource_name env r fill restype

-- The rounds of Admin_describe_configs and Admin_alter_configs.
unfoldable pub build_description : Env → Resource → M Round
unfolding get_int get_string
build_description env r = resource_round env pure r

unfoldable pub build_alteration : Env → Resource → M Round
unfolding get_int get_string get_attr config_dict_to_c
build_alteration env r = resource_round env (alterations env r) r

-- A loop from round `i`: the objects, or none behind `goto err`, and the final `i`.
abbrev pub keep_object : CObject → Option (List CObject) × ℕ → Option (List CObject) × ℕ
keep_object c (none, j) = (none, j)
keep_object c (some cs, j) = (some (c ∷ cs), j)

unfoldable pub build_all :
    {A : Type 0} → (A → M Round) → ℕ → List (Item A) → M (Option (List CObject) × ℕ)
build_all make i [] = pure (some [], i)
build_all make i (x ∷ xs) = check_item make x >>= λ r. elim r [
  | made c ↦ build_all make (suc i) xs >>= λ b. pure (keep_object c b)
  | stopped_before ↦ pure (none, i)
  | stopped_after ↦ pure (none, suc i)
]
