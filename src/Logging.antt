-- ===== src/Logging.antt =====
-- logging_config.py: the loggers of Python's logging under `configure_logging`. A name is a list of
-- code points; a logger that nobody has asked for is as `getLogger` makes it. The renderers and the
-- processors of structlog shape a record's text and are left out; `disabled` loggers too.
pub mod Words
pub mod Delivery
use feedgate_fetcher.Prelude.{
  ℕ, zero, suc, Option, none, some, List, [], ◌∷◌, ◌++◌, map, Bool, true, false, not, ◌&&◌, ◌||◌,
  leb, ◌==◌, ◌-◌, if◌then◌else◌, any,
}
use feedgate_fetcher.Prelude.Texts.{codes, codes_eq}
use feedgate_fetcher.Prelude.Find.{find}

-- the one handler that is installed, by `json_logs`, or any other
pub data Handler : Type 0 where
  stream : Bool → Handler
  foreign : ℕ → Handler

pub data LogFilter : Type 0 where
  silent_path_filter : LogFilter
  foreign : (List ℕ → Bool) → LogFilter

pub record Logger : Type 0 where
  pub level : ℕ
  pub handlers : List Handler
  pub filters : List LogFilter
  pub propagate : Bool

pub record Loggers : Type 0 where
  pub root : Logger
  pub named : List ℕ → Logger

abbrev pub info : ℕ
info = 20

abbrev pub warning : ℕ
warning = 30

-- the levels among the attributes of the module `logging`
abbrev pub levels : List (List ℕ × ℕ)
levels =
    (codes "CRITICAL", 50)
    ∷ (codes "FATAL", 50)
    ∷ (codes "ERROR", 40)
    ∷ (codes "WARNING", 30)
    ∷ (codes "WARN", 30)
    ∷ (codes "INFO", 20)
    ∷ (codes "DEBUG", 10)
    ∷ (codes "NOTSET", 0)
    ∷ []

-- `str.upper` on ASCII
abbrev pub upper : List ℕ → List ℕ
upper = map (λ c. if leb 97 c && leb c 122 then c - 32 else c)

-- `getattr(logging, log_level.upper(), logging.INFO)`; the two attributes that are no levels,
-- BASIC_FORMAT and _STYLES, are left out, with the exception of `setLevel` that they lead to.
unfoldable pub level_of : List ℕ → ℕ
unfolding find
level_of log_level = elim (find (λ (l : List ℕ × ℕ). codes_eq l.0 (upper log_level)) levels) [
  | none ↦ info
  | some (name, level) ↦ level
]

unfoldable pub is_prefix : List ℕ → List ℕ → Bool
is_prefix [] s = true
is_prefix (c ∷ cs) [] = false
is_prefix (c ∷ cs) (d ∷ s) = (c == d) && is_prefix cs s

-- `path in msg`
unfoldable pub contains : List ℕ → List ℕ → Bool
unfolding is_prefix
contains part [] = is_prefix part []
contains part (c ∷ s) = is_prefix part (c ∷ s) || contains part s

abbrev pub silent_paths : List (List ℕ)
silent_paths = codes "/healthz" ∷ codes "/metrics" ∷ []

-- `_SilentPathFilter.filter`
unfoldable pub silent_path_passes : List ℕ → Bool
unfolding contains any
silent_path_passes msg = not (any (λ path. contains path msg) silent_paths)

-- the changes of one logger: the root, the service's, the access log, the database's
unfoldable pub configure_root : ℕ → Bool → Logger → Logger
configure_root level json_logs l = record l { handlers = stream json_logs ∷ []; level = level }

unfoldable pub configure_plain : ℕ → Logger → Logger
configure_plain level l = record l { handlers = []; propagate = true; level = level }

unfoldable pub configure_access : ℕ → Logger → Logger
configure_access level l = record {
  handlers = [];
  filters = silent_path_filter ∷ [];
  propagate = true;
  level = level;
}

-- `getLogger(name)`, changed
unfoldable pub update : (Logger → Logger) → List ℕ → Loggers → Loggers
update change name s = record s {
  named = λ n. if codes_eq n name then change (s.named n) else s.named n;
}

-- the same for each name of a tuple
unfoldable pub update_all : (Logger → Logger) → List (List ℕ) → Loggers → Loggers
unfolding update
update_all change [] s = s
update_all change (name ∷ names) s = update_all change names (update change name s)

abbrev pub service_loggers : List (List ℕ)
service_loggers = codes "uvicorn" ∷ codes "uvicorn.error" ∷ codes "fastapi" ∷ []

abbrev pub access_logger : List ℕ
access_logger = codes "uvicorn.access"

abbrev pub database_loggers : List (List ℕ)
database_loggers = codes "sqlalchemy" ∷ codes "sqlalchemy.engine" ∷ codes "sqlalchemy.pool" ∷ []

unfoldable pub configure_logging : List ℕ → Bool → Loggers → Loggers
unfolding level_of configure_root configure_plain configure_access update update_all
configure_logging log_level json_logs s =
    let level = level_of log_level in
    update_all (configure_plain warning) database_loggers (
      update (configure_access level) access_logger (
        update_all (configure_plain level) service_loggers
          (record s { root = configure_root level json_logs s.root })))

-- How Python hands a record on. The names of a logger's ancestors, the nearest first.
unfoldable pub ancestors : List ℕ → List ℕ → List (List ℕ)
ancestors before [] = []
ancestors before (c ∷ name) =
    let rest = ancestors (before ++ c ∷ []) name in if c == 46 then rest ++ before ∷ [] else rest

-- `getEffectiveLevel`: the first that is set
unfoldable pub effective_level : List Logger → ℕ
effective_level [] = 0
effective_level (l ∷ ls) = let rest = effective_level ls in if l.level == 0 then rest else l.level

-- `callHandlers`, up to the first logger that does not propagate
unfoldable pub call_handlers : List Logger → List Handler
call_handlers [] = []
call_handlers (l ∷ ls) =
    let rest = call_handlers ls in l.handlers ++ (if l.propagate then rest else [])

abbrev pub passes : List ℕ → LogFilter → Bool
passes msg silent_path_filter = silent_path_passes msg
passes msg (foreign test) = test msg

-- the logger's filters, and none of its ancestors'
unfoldable pub passes_all : List ℕ → List LogFilter → Bool
passes_all msg [] = true
passes_all msg (f ∷ fs) = passes msg f && passes_all msg fs

abbrev pub chain : Loggers → List ℕ → List Logger
chain s name = s.named name ∷ (map s.named (ancestors [] name) ++ s.root ∷ [])

-- the handlers that a record reaches, of a logger, with a level and a message
unfoldable pub delivered : Loggers → List ℕ → ℕ → List ℕ → List Handler
unfolding effective_level call_handlers passes_all
delivered s name level msg =
    if leb (effective_level (chain s name)) level && passes_all msg (s.named name).filters
    then call_handlers (chain s name)
    else []
