-- ===== src/Producer/Produce.antt =====
-- Producer_produce of confluent_kafka/src/Producer.c, as built with a librdkafka that has producev and
-- headers.
use confluent_kafka_python.Base.{ℕ, true, false, Option, none, some, List, if◌then◌else◌, ◌++◌}
use confluent_kafka_python.Base.Int.{ℤ, pos, negsuc, eqb_ℤ}
use confluent_kafka_python.Base.Text.{Text, codes}
use confluent_kafka_python.Object.{Object, none_object, Exception, buffer_full}
use confluent_kafka_python.Headers.{Header, headers_to_c}
use confluent_kafka_python.Callbacks.{msgstate_new, msgstate_destroy}
use confluent_kafka_python.World.{
  Env, RdCall, M, Parsed, parse, pure, raise, gets, call_code, kafka_failure, destroy_headers,
  ◌>>=◌, ◌>>◌,
}

-- The arguments; `none` of an object is a NULL, an argument that is not given.
pub record ProduceArgs : Type 0 where
  pub topic : Text
  pub value : Option Text
  pub key : Option Text
  pub partition : ℤ
  pub callback : Option Object
  pub on_delivery : Option Object
  pub timestamp : ℤ
  pub headers : Option Object

abbrev pub headers_arg : Env → Option Object → M (Option (List Header))
headers_arg env none = pure none
headers_arg env (some none_object) = pure none
headers_arg env (some o) = headers_to_c env o >>= λ hs. pure (some hs)

-- `on_delivery` stands in for a `callback` that is not given.
abbrev pub alias : Option Object → Option Object → Option Object
alias none on_delivery = on_delivery
alias (some f) on_delivery = some f

-- The callback of the message: None and a missing argument mean the configured one.
unfoldable pub delivery_callback : Option Object → Option Object → Option Object
delivery_callback none default = default
delivery_callback (some none_object) default = default
delivery_callback (some f) default = some f

abbrev pub err_queue_full : ℤ
err_queue_full = negsuc 183

abbrev pub produce_exception : Env → ℤ → Exception
produce_exception env err =
    if eqb_ℤ err err_queue_full
    then buffer_full (env.err2str err)
    else kafka_failure env err (codes "Unable to produce message: " ++ env.err2str err)

-- rd_kafka_producev takes the headers over if it succeeds.
abbrev pub hand_over : Option (List Header) → M (Unit {0})
hand_over none = pure tt
hand_over (some hs) = destroy_headers

-- What follows rd_kafka_producev, by its result.
abbrev pub end_produce : ℕ → Option (List Header) → Env → ℤ → M Object
end_produce n hs env err = elim (eqb_ℤ err (pos 0)) [
  | true ↦ hand_over hs >> pure none_object
  | false ↦ msgstate_destroy n >> raise (produce_exception env err)
]

abbrev pub send : Env → ProduceArgs → Option (List Header) → M Object
send env a hs = do
  default ← gets (λ w. w.default_dr_cb)
  n ← msgstate_new (delivery_callback (alias a.callback a.on_delivery) default)
  err ← call_code env (RdCall.producev a.topic a.partition a.value a.key a.timestamp n hs)
  end_produce n hs env err

unfoldable pub produce : Env → Parsed ProduceArgs → M Object
unfolding headers_to_c msgstate_new msgstate_destroy delivery_callback
produce env args = do a ← parse args; hs ← headers_arg env a.headers; send env a hs
