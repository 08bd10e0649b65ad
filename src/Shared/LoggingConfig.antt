-- ===== src/Shared/LoggingConfig.antt =====
-- shared/logging_config.py: `setup_logging`. The handlers and the formatters are those of Python's
-- logging, so how they are made is a parameter; the lists and levels that the code sets are written
-- out.
use ds_practice_court.Base.{◌≡◌, refl, Option, some, List, [], ◌∷◌, ◌++◌, if◌then◌else◌, arith}
use ds_practice_court.Base.Text.{Text, codes, text_eq}
use ds_practice_court.Shared.Config.{Settings}

pub data Level : Type 0 where
  debug info warning : Level

pub data Converter : Type 0 where
  gmtime localtime : Converter

pub record Formatter : Type 0 where
  pub frmt : Text
  pub datefmt : Text
  pub converter : Converter

-- The root logger, and the levels of the loggers that have one of their own, by name.
pub record Loggers (H : Type 0) : Type 0 where
  pub handlers : List H
  pub root_level : Level
  pub levels : Text → Option Level

-- `"%(asctime)s | %(levelname)s | {node} | %(name)s | %(message)s".format(node=node_id)`
unfoldable pub format_of : Text → Text
format_of node_id =
    codes "%(asctime)s | %(levelname)s | " ++ (node_id ++ codes " | %(name)s | %(message)s")

unfoldable pub formatter_of : Settings → Formatter
unfolding format_of
formatter_of settings = record {
  frmt = format_of settings.node_id;
  datefmt = codes "%Y-%m-%d T: %H:%M:%S";
  converter = localtime;
}

unfoldable pub log_level : Settings → Level
log_level settings = if settings.debug then debug else info

-- `logging.StreamHandler(sys.stdout)` with `setFormatter`
module _ {H : Type 0} (stream_handler : Formatter → H) where
  -- `logging.getLogger(name).setLevel(level)`
  unfoldable pub set_level : Text → Level → Loggers H → Loggers H
  set_level name level l = record l {
    levels = λ other. if text_eq other name then some level else l.levels other;
  }

  -- `root.handlers.clear()`, `root.addHandler(handler)` and `root.setLevel(log_level)`
  unfoldable pub configure_root : Settings → Loggers H → Loggers H
  unfolding formatter_of log_level
  configure_root settings l = record l {
    handlers = [] ++ stream_handler (formatter_of settings) ∷ [];
    root_level = log_level settings;
  }

  unfoldable pub setup_logging : Settings → Loggers H → Loggers H
  unfolding set_level configure_root
  setup_logging settings l =
      let l1 = configure_root settings l in
      let l2 = set_level (codes "sqlalchemy.engine") warning l1 in
      let l3 = set_level (codes "httpx") warning l2 in set_level (codes "uvicorn.access") warning l3

  -- A second call leaves only what it sets itself, whatever the settings of the first one were: the
  -- handlers do not pile up.
  pub setup_logging_again :
      (first second : Settings) (l : Loggers H) (name : Text)
      → let once = setup_logging second l in
        let twice = setup_logging second (setup_logging first l) in
        (twice.handlers ≡ once.handlers)
        × (twice.root_level ≡ once.root_level)
        × (twice.levels name ≡ once.levels name)
  unfolding setup_logging set_level configure_root
  setup_logging_again first second l name = (refl, refl, ground arith)
