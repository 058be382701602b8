-- ===== src/Admin/Options.antt =====
-- Admin_options_to_c of confluent_kafka/src/Admin.c, and what is counted of a request's C objects.
use confluent_kafka_python.Base.{
  ℕ, zero, suc, ◌-◌, ◌/◌, Bool, true, false, not, none, some, [], ◌∷◌, ltb,
}
use confluent_kafka_python.Base.Int.{ℤ, pos, negsuc, eqb_ℤ}
use confluent_kafka_python.Object.{runtime_error, invalid_value}
use confluent_kafka_python.World.{
  Env, AdminApi, Setter, CObject, M, ok, fault, pure, raise, raise_if, ◌>>=◌, ◌>>◌,
}

abbrev pub own_options : M (Unit {0})
own_options w = (ok tt, record w { held = record w.held { options = suc w.held.options } })

abbrev pub destroy_options : M (Unit {0})
destroy_options w = elim w.held.options [
  | zero ↦ (fault, w)
  | suc n ↦ (ok tt, record w { held = record w.held { options = n } })
]

abbrev pub own_object : M (Unit {0})
own_object w = (ok tt, record w { held = record w.held { objects = suc w.held.objects } })

-- rd_kafka_*_destroy_array on the first `n` objects of an array; to free more than there are is an
-- access behind the array's objects.
abbrev pub destroy_objects : ℕ → M (Unit {0})
destroy_objects n w = elim (ltb w.held.objects n) [
  | true ↦ (fault, w)
  | false ↦ (ok tt, record w { held = record w.held { objects = w.held.objects - n } })
]

-- struct Admin_options; the timeouts are whole numbers of microseconds.
pub record Options : Type 0 where
  pub validate_only : ℤ
  pub request_timeout : ℤ
  pub operation_timeout : ℤ
  pub broker : ℤ

abbrev pub unset : ℤ
unset = negsuc 12344

abbrev pub unset_timeout : ℤ
unset_timeout = negsuc 12344999999

abbrev pub no_options : Options
no_options = record {
  validate_only = unset;
  request_timeout = unset_timeout;
  operation_timeout = unset_timeout;
  broker = unset;
}

-- C's cut of a number towards 0.
abbrev neg : ℕ → ℤ
neg zero = pos 0
neg (suc n) = negsuc n

abbrev pub truncate : ℕ → ℤ → ℤ
truncate d (pos n) = pos (n / d)
truncate d (negsuc n) = neg (suc n / d)

abbrev pub is_set_int : ℤ → Bool
is_set_int z = not (eqb_ℤ z unset)

-- `(int)(v) != -12345`
abbrev pub is_set_float : ℤ → Bool
is_set_float z = is_set_int (truncate 1000000 z)

-- `Admin_options_is_set…(v) && (err = rd_kafka_AdminOptions_set_…(…))`, with `goto err`.
unfoldable pub set_option : Env → Bool → Setter → CObject → M CObject
set_option env is_set s c = elim is_set [
  | false ↦ pure c
  | true ↦ elim (env.setter c s) [
    | none ↦ pure (s ∷ c)
    | some errstr ↦ destroy_options >> raise (invalid_value errstr)
  ]
]

unfoldable pub options_to_c : Env → AdminApi → Options → M CObject
unfolding set_option
options_to_c env api o = do
  raise_if (not (env.supports api))
      (runtime_error "This Admin API method is unsupported by librdkafka")
  own_options
  c ← set_option env (is_set_int o.validate_only) (Setter.validate_only o.validate_only) []
  c ←
      set_option env (is_set_float o.request_timeout)
        (Setter.request_timeout (truncate 1000 o.request_timeout)) c
  c ←
      set_option env (is_set_float o.operation_timeout)
        (Setter.operation_timeout (truncate 1000 o.operation_timeout)) c
  set_option env (is_set_int o.broker) (Setter.broker o.broker) c
