-- ===== src/Logging/Delivery.antt =====
-- About the records that reach a handler after `configure_logging` of logging_config.py.
use feedgate_fetcher.Prelude.{
  ℕ, ◌≡◌, refl, List, [], ◌∷◌, Bool, true, ◌&&◌, ◌⊎◌, inl, inr, Bool-cases, ◌≤◌, ◌<◌, ◌∙◌, subst,
  leb, ◌==◌, ==_iff, if◌then◌else◌, All, arith,
}
use feedgate_fetcher.Prelude.Texts.{codes}
use feedgate_fetcher.Logging.Words.{IsLevel, IsSilent, level_of-IsLevel, silent_path_passes-cases}
use feedgate_fetcher.Logging.{
  Handler, stream, Loggers, warning, level_of, silent_path_passes, configure_root, configure_plain,
  configure_access, update, update_all, service_loggers, access_logger, database_loggers,
  configure_logging, delivered, passes_all, ancestors,
}

parents_of_access : ancestors [] access_logger ≡ codes "uvicorn" ∷ []
unfolding ancestors
parents_of_access = refl

parents_of_service :
    (ancestors [] (codes "uvicorn") ≡ [])
    × (ancestors [] (codes "uvicorn.error") ≡ codes "uvicorn" ∷ [])
    × (ancestors [] (codes "fastapi") ≡ [])
unfolding ancestors
parents_of_service = (refl, refl, refl)

parents_of_database :
    (ancestors [] (codes "sqlalchemy") ≡ [])
    × (ancestors [] (codes "sqlalchemy.engine") ≡ codes "sqlalchemy" ∷ [])
    × (ancestors [] (codes "sqlalchemy.pool") ≡ codes "sqlalchemy" ∷ [])
unfolding ancestors
parents_of_database = (refl, refl, refl)

module _ (log_level : List ℕ) (json_logs : Bool) (s : Loggers) where
  named_access :
      (configure_logging log_level json_logs s).named access_logger
      ≡ configure_access (level_of log_level) (s.named access_logger)
  unfolding configure_logging
  named_access = refl

  named_uvicorn :
      (configure_logging log_level json_logs s).named (codes "uvicorn")
      ≡ configure_plain (level_of log_level) (s.named (codes "uvicorn"))
  unfolding configure_logging
  named_uvicorn = refl

  root_lem :
      (configure_logging log_level json_logs s).root
      ≡ configure_root (level_of log_level) json_logs s.root
  unfolding configure_logging update update_all
  root_lem = refl

  delivered-access :
      (level : ℕ) (msg : List ℕ)
      → delivered (configure_logging log_level json_logs s) access_logger level msg ≡ (
          if leb (level_of log_level) level && silent_path_passes msg
          then stream json_logs ∷ []
          else [])
  unfolding delivered configure_access configure_plain configure_root
  delivered-access level msg =
      rw (delivered, parents_of_access)
        (rw named_access (rw named_uvicorn (rw root_lem (ground arith))))

  named_service :
      All
        (λ name.
          (configure_logging log_level json_logs s).named name
          ≡ configure_plain (level_of log_level) (s.named name))
        service_loggers
  unfolding configure_logging
  named_service = (refl, (refl, (refl, tt)))

  named_database :
      All
        (λ name.
          (configure_logging log_level json_logs s).named name
          ≡ configure_plain warning (s.named name))
        database_loggers
  unfolding configure_logging
  named_database = (refl, (refl, (refl, tt)))

  -- the one handler of the root, for a record of this level that passes the logger's own filters
  abbrev pub passed : List ℕ → ℕ → ℕ → List ℕ → List Handler
  passed name own level msg =
      if leb own level && passes_all msg (s.named name).filters then stream json_logs ∷ [] else []

  module _ (name : List ℕ) (own level : ℕ) (msg : List ℕ) where
    delivered-top :
        ((own == 0) ≡ true → level_of log_level ≡ 0)
        → ancestors [] name ≡ []
        → (configure_logging log_level json_logs s).named name ≡ configure_plain own (s.named name)
        → delivered (configure_logging log_level json_logs s) name level msg
          ≡ passed name own level msg
    unfolding delivered configure_plain configure_root
    delivered-top h p e = rw (delivered, p) (rw e (rw root_lem (ground (arith, h))))

    delivered-child :
        (parent : List ℕ)
        → ((own == 0) ≡ true → level_of log_level ≡ 0)
        → ancestors [] name ≡ parent ∷ []
        → (configure_logging log_level json_logs s).named name ≡ configure_plain own (s.named name)
        → (configure_logging log_level json_logs s).named parent
          ≡ configure_plain own (s.named parent)
        → delivered (configure_logging log_level json_logs s) name level msg
          ≡ passed name own level msg
    unfolding delivered configure_plain configure_root
    delivered-child parent h p e k =
        rw (delivered, p) (rw e (rw k (rw root_lem (ground (arith, h)))))

  delivered-service :
      (level : ℕ) (msg : List ℕ)
      → All
          (λ name.
            delivered (configure_logging log_level json_logs s) name level msg
            ≡ passed name (level_of log_level) level msg)
          service_loggers
  delivered-service level msg =
      let own = level_of log_level in
      let n = named_service in
      let p = parents_of_service in
      (
        delivered-top (codes "uvicorn") own level msg (==_iff own 0).0 p.0 n.0,
        (
          delivered-child (codes "uvicorn.error") own level msg (codes "uvicorn") (==_iff own 0).0
              p.1 n.1.0 n.0,
          (delivered-top (codes "fastapi") own level msg (==_iff own 0).0 p.2 n.1.1.0, tt),
        ),
      )

  delivered-database :
      (level : ℕ) (msg : List ℕ)
      → All
          (λ name.
            delivered (configure_logging log_level json_logs s) name level msg
            ≡ passed name warning level msg)
          database_loggers
  delivered-database level msg =
      let d = named_database in
      let q = parents_of_database in
      (
        delivered-top (codes "sqlalchemy") warning level msg (λ e. cc) q.0 d.0,
        (
          delivered-child (codes "sqlalchemy.engine") warning level msg (codes "sqlalchemy")
              (λ e. cc) q.1 d.1.0 d.0,
          (
            delivered-child (codes "sqlalchemy.pool") warning level msg (codes "sqlalchemy")
                (λ e. cc) q.2 d.1.1.0 d.0,
            tt,
          ),
        ),
      )

  -- what becomes of a record of this level with this message, where `own` is the configured level
  pub record Delivers (own level : ℕ) (msg : List ℕ) : Type 0 where
    -- The access log hands on nothing, where the message is silent or the level is too low; or it is
    -- neither, and the record reaches the one handler, once.
    pub access :
        ((delivered (configure_logging log_level json_logs s) (codes "uvicorn.access") level msg
            ≡ [])
          × (IsSilent msg ⊎ (level < own)))
        ⊎ ((delivered (configure_logging log_level json_logs s) (codes "uvicorn.access") level msg
              ≡ stream json_logs ∷ [])
            × ¬ IsSilent msg
            × (own ≤ level))
    pub service :
        All
          (λ name.
            delivered (configure_logging log_level json_logs s) name level msg
            ≡ passed name own level msg)
          (codes "uvicorn" ∷ codes "uvicorn.error" ∷ codes "fastapi" ∷ [])
    pub database :
        All
          (λ name.
            delivered (configure_logging log_level json_logs s) name level msg
            ≡ passed name 30 level msg)
          (codes "sqlalchemy" ∷ codes "sqlalchemy.engine" ∷ codes "sqlalchemy.pool" ∷ [])

  -- After the configuration of the log with a text that names a level, in any mix of cases, or
  -- INFO where it is no name in `logging`, and however the loggers were set up before: the access
  -- log hands a record to the root's one handler, once, if it is at that level and neither
  -- `/healthz` nor `/metrics` stands anywhere in its message, and to nobody otherwise; the other
  -- loggers of the service and those of the database hand one on, once, exactly if it is at that
  -- level, or at WARNING, and passes the logger's own filters.
  pub delivered_lem :
      (own level : ℕ) (msg : List ℕ) → IsLevel log_level own → Delivers own level msg
  delivered_lem own level msg l =
      let same = level_of-IsLevel l in
      let answer = delivered-access level msg in
      record {
        access = elim (Bool-cases (leb own level)) [
          | inr low ↦ inl (answer ∙ rw (same, low) refl, inr (ground (arith, low)))
          | inl high ↦ elim (silent_path_passes-cases msg) [
            | inl (silent, e) ↦ inl (answer ∙ rw (same, high, e) refl, inl silent)
            | inr (spoken, e) ↦ inr (answer ∙ rw (same, high, e) refl, spoken, ground (arith, high))
          ]
        ];
        service =
            subst
              (λ own.
                All
                  (λ name.
                    delivered (configure_logging log_level json_logs s) name level msg
                    ≡ passed name own level msg)
                  service_loggers)
              same (delivered-service level msg);
        database = delivered-database level msg;
      }
