-- ===== src/Dict.antt =====
-- Python's dicts as the extension uses them: the entries in their order. The keys that it looks for
-- are strs.
use confluent_kafka_python.Base.{Bool, true, false, Option, none, some, if◌then◌else◌}
use confluent_kafka_python.Base.Text.{Text, same, strcmp}
use confluent_kafka_python.Object.{Object, str, Entries, end, entry}
use confluent_kafka_python.World.{Env}

abbrev pub is_text : Text → Object → Bool
is_text t (str u) = elim (strcmp t u) [ same ↦ true | _ ↦ false ]
is_text t _ = false

-- PyDict_SetItemString
unfoldable pub set_text : Text → Object → Entries → Entries
set_text t v end = entry (str t) v end
set_text t v (entry k u es) =
    let rest = set_text t v es in if is_text t k then entry k v es else entry k u rest

-- The value of a dict under a text.
unfoldable pub find_item : Text → Entries → Option Object
find_item t end = none
find_item t (entry k v es) = if is_text t k then some v else find_item t es

-- PyDict_DelItemString on a key that is there.
unfoldable pub delete_text : Text → Entries → Entries
delete_text t end = end
delete_text t (entry k v es) =
    let rest = delete_text t es in if is_text t k then es else entry k v rest

-- PyDict_Update
unfoldable pub set_item : Env → Object → Object → Entries → Entries
set_item env k v end = entry k v end
set_item env k v (entry l u es) =
    let rest = set_item env k v es in if env.same_key k l then entry l v es else entry l u rest

unfoldable pub update : Env → Entries → Entries → Entries
unfolding set_item
update env es end = es
update env es (entry k v rest) = update env (set_item env k v es) rest
