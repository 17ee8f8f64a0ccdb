-- ===== src/Engine/Options.antt =====
-- engine/options.go: the options of `New`, and the order of the middleware in `Run`.
use devengine.Common.{
  ℕ, zero, suc, ◌*◌, ◌++◌, ℤ, pos, negsuc, Option, none, some, List, [], ◌∷◌, Text, str,
}
use devengine.Engine.Run.{Profile, http_and_worker}

-- Durations in nanoseconds, as the source's int64 values.
pub record ServerTimeouts : Type 0 where
  pub read_header : ℤ
  pub read : ℤ
  pub write : ℤ
  pub idle : ℤ

-- The fields that options set; a logger, a tracer, a meter and a middleware are known by a number,
-- and 0 is the one that `New` starts with.
pub record Settings : Type 0 where
  pub name : Text
  pub address : Text
  pub profile : Profile
  pub version : Text
  pub environment : Text
  pub logger : ℕ
  pub middleware : List (Option ℕ)
  pub shutdown_timeout : ℤ
  pub worker_shutdown_timeout : ℤ
  pub server_timeouts : ServerTimeouts
  pub tracer : ℕ
  pub meter : ℕ

-- `none` is nil.
pub data EngineOption : Type 0 where
  with_name with_address with_version with_environment : Text → EngineOption
  with_profile : Profile → EngineOption
  with_logger : Option ℕ → EngineOption
  with_shutdown_timeout with_worker_shutdown_timeout : ℤ → EngineOption
  with_server_timeouts : ServerTimeouts → EngineOption
  with_middleware : List (Option ℕ) → EngineOption
  with_telemetry : Option ℕ → Option ℕ → EngineOption

abbrev pub seconds : ℕ → ℤ
seconds n = pos (n * 1_000_000_000)

unfoldable pub default_settings : Settings
default_settings = record {
  name = str "devengine-app";
  address = str ":8080";
  profile = http_and_worker;
  version = [];
  environment = [];
  logger = 0;
  middleware = [];
  shutdown_timeout = seconds 10;
  worker_shutdown_timeout = seconds 30;
  server_timeouts = record {
    read_header = seconds 5;
    read = seconds 30;
    write = seconds 30;
    idle = seconds 60;
  };
  tracer = 0;
  meter = 0;
}

-- `if timeout > 0`
unfoldable pub if_positive : ℤ → ℤ → ℤ
if_positive (pos (suc n)) old = pos (suc n)
if_positive (pos zero) old = old
if_positive (negsuc n) old = old

unfoldable pub or_old : Option ℕ → ℕ → ℕ
or_old (some n) old = n
or_old none old = old

unfoldable pub apply_option : EngineOption → Settings → Settings
unfolding if_positive or_old
apply_option (with_name t) s = record s { name = t }
apply_option (with_address t) s = record s { address = t }
apply_option (with_version t) s = record s { version = t }
apply_option (with_environment t) s = record s { environment = t }
apply_option (with_profile p) s = record s { profile = p }
apply_option (with_logger l) s = record s { logger = or_old l s.logger }
apply_option (with_shutdown_timeout d) s = record s {
  shutdown_timeout = if_positive d s.shutdown_timeout;
}
apply_option (with_worker_shutdown_timeout d) s = record s {
  worker_shutdown_timeout = if_positive d s.worker_shutdown_timeout;
}
apply_option (with_server_timeouts t) s = record s { server_timeouts = t }
apply_option (with_middleware ms) s = record s { middleware = s.middleware ++ ms }
apply_option (with_telemetry t m) s = record s {
  tracer = or_old t s.tracer;
  meter = or_old m s.meter;
}

unfoldable pub apply_options : List EngineOption → Settings → Settings
unfolding apply_option
apply_options [] s = s
apply_options (o ∷ os) s = apply_options os (apply_option o s)

-- The loop of `Run` over the middleware, from the last to the first: the first is outermost, and
-- nil is left out.
unfoldable pub wrap {ℓ} : {H : Type ℓ} → (ℕ → H → H) → List (Option ℕ) → H → H
wrap use_middleware [] handler = handler
wrap use_middleware (none ∷ ms) handler = wrap use_middleware ms handler
wrap use_middleware (some m ∷ ms) handler = use_middleware m (wrap use_middleware ms handler)

abbrev pub Positive : ℤ → Type 0
Positive (pos (suc n)) = Unit
Positive (pos zero) = ⊥
Positive (negsuc n) = ⊥

if_positive-Positive : (d old : ℤ) → Positive old → Positive (if_positive d old)
unfolding if_positive
if_positive-Positive (pos (suc n)) old h = tt
if_positive-Positive (pos zero) old h = h
if_positive-Positive (negsuc n) old h = h

apply_option-Positive :
    (o : EngineOption) (s : Settings)
    → Positive s.shutdown_timeout × Positive s.worker_shutdown_timeout
    → Positive (apply_option o s).shutdown_timeout
      × Positive (apply_option o s).worker_shutdown_timeout
unfolding apply_option
apply_option-Positive (with_name t) s h = h
apply_option-Positive (with_address t) s h = h
apply_option-Positive (with_version t) s h = h
apply_option-Positive (with_environment t) s h = h
apply_option-Positive (with_profile p) s h = h
apply_option-Positive (with_logger l) s h = h
apply_option-Positive (with_shutdown_timeout d) s h = (if_positive-Positive d _ h.0, h.1)
apply_option-Positive (with_worker_shutdown_timeout d) s h = (h.0, if_positive-Positive d _ h.1)
apply_option-Positive (with_server_timeouts t) s h = h
apply_option-Positive (with_middleware ms) s h = h
apply_option-Positive (with_telemetry t m) s h = h

-- Whatever options are given, both shutdowns have a positive time.
apply_options-Positive :
    (os : List EngineOption) (s : Settings)
    → Positive s.shutdown_timeout × Positive s.worker_shutdown_timeout
    → Positive (apply_options os s).shutdown_timeout
      × Positive (apply_options os s).worker_shutdown_timeout
unfolding apply_options
apply_options-Positive [] s h = h
apply_options-Positive (o ∷ os) s h = apply_options-Positive os _ (apply_option-Positive o s h)

pub new_settings-Positive :
    (os : List EngineOption)
    → Positive (apply_options os default_settings).shutdown_timeout
      × Positive (apply_options os default_settings).worker_shutdown_timeout
unfolding default_settings
new_settings-Positive os = apply_options-Positive os default_settings (tt, tt)
