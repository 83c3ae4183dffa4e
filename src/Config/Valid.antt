-- ===== src/Config/Valid.antt =====
-- Validate accepts exactly the valid configurations.
use dot_sync_manager.Base.{
  [], ◌∷◌, Option, none, some, Bool, true, false, Text, codes, is_empty, eq_text_iff, has_prefix,
  ◌≡◌, ◌≢◌, refl, arith, ◌↔◌, inl, inr, All, Bool-cases,
}
use dot_sync_manager.Base.Dict.{Dict}
use dot_sync_manager.Base.Int.{ℤ, pos, ◌≤ℤ◌}
use dot_sync_manager.Base.Paths.{is_abs}
use dot_sync_manager.Base.Result.{ok, reject, split_bind}
use dot_sync_manager.Config.{
  GitSection, BackoffSettings, SyncSettings, ConflictConfig, UiConfig, AdvancedConfig, SyncConfig,
}
use dot_sync_manager.Debouncer.Backoff.{FloatOps}
use dot_sync_manager.Config.Validation.{
  version_required, machine_required, is_strategy, validate_git, validate_sync, validate_conflict,
  validate_ui, validate_advanced, validate_mappings, validate_enabled_backoff, validate_backoff,
  validate, IsGit, IsSync, IsConflict, IsTheme, IsMapping, IsBackoff, IsBackoffOption, IsConfig,
}

pub is_abs-not_empty : (p : Text) → is_abs p ≡ true → p ≢ []
unfolding is_abs has_prefix
is_abs-not_empty [] h = absurd (cc)
is_abs-not_empty (b ∷ p) h = cc

IsGit-iff :
    (parse_address : Text → Bool) (g : GitSection)
    → (validate_git parse_address g ≡ ok tt) ↔ IsGit parse_address g
unfolding validate_git
IsGit-iff parse_address g = (
  λ h. record {
    repo_abs = ground arith;
    author_name = ground arith;
    author_email = ground arith;
    email = ground arith;
  },
  λ v.
      ground
        (arith, v.repo_abs, v.author_name, v.author_email, v.email, is_abs-not_empty g.repo_path),
)

IsSync-iff : {Float : Type 0} (s : SyncSettings Float) → (validate_sync s ≡ ok tt) ↔ IsSync s
unfolding validate_sync
IsSync-iff s = (
  λ h. record { pull = ground arith; debounce = ground arith; debounce_below = ground arith },
  λ v. ground (arith, v.pull, v.debounce, v.debounce_below),
)

IsConflict-iff : (c : ConflictConfig) → (validate_conflict c ≡ ok tt) ↔ IsConflict c
unfolding validate_conflict is_strategy
IsConflict-iff c = (
  λ h. record {
    strategy = ground (
      arith,
      eq_text_iff c.strategy (codes "manual"),
      eq_text_iff c.strategy (codes "auto_keep_local"),
      eq_text_iff c.strategy (codes "auto_keep_remote"),
    );
    days = ground arith;
    days_below = ground arith;
  },
  λ v. ground (
    arith,
    v.strategy,
    v.days,
    v.days_below,
    eq_text_iff c.strategy (codes "manual"),
    eq_text_iff c.strategy (codes "auto_keep_local"),
    eq_text_iff c.strategy (codes "auto_keep_remote"),
  ),
)

theme_iff : (u : UiConfig) → (validate_ui u ≡ ok tt) ↔ IsTheme u.theme
unfolding validate_ui
theme_iff u = ground (
  arith,
  eq_text_iff u.theme (codes "auto"),
  eq_text_iff u.theme (codes "light"),
  eq_text_iff u.theme (codes "dark"),
)

advanced_iff :
    (a : AdvancedConfig)
    → (validate_advanced a ≡ ok tt)
      ↔ ((pos 1 ≤ℤ a.max_log_size_mb) × (a.max_log_size_mb ≤ℤ pos 1000))
unfolding validate_advanced
advanced_iff a = ground arith

mappings_iff : (m : Dict Text) → (validate_mappings m ≡ ok tt) ↔ All IsMapping m
unfolding validate_mappings
mappings_iff [] = (λ _. tt, λ _. refl)
mappings_iff ((source, target) ∷ m) = ground (arith, is_abs-not_empty target, mappings_iff m)

module _ {Float : Type 0} (ops : FloatOps Float) where
  enabled-IsBackoff_iff :
      (debounce : ℤ) (b : BackoffSettings Float)
      → (validate_enabled_backoff ops debounce b ≡ ok tt) ↔ IsBackoff ops debounce b
  unfolding validate_enabled_backoff
  enabled-IsBackoff_iff debounce b = (
    λ h. record {
      max_delay = ground arith;
      max_delay_above = ground arith;
      multiplier = ground arith;
      churn_threshold = ground arith;
      churn_window = ground arith;
      decay = ground arith;
    },
    λ v. ground (
      arith, v.max_delay, v.max_delay_above, v.multiplier, v.churn_threshold, v.churn_window,
      v.decay,
    ),
  )

  backoff_iff :
      (debounce : ℤ) (o : Option (BackoffSettings Float))
      → (validate_backoff ops debounce o ≡ ok tt) ↔ IsBackoffOption ops debounce o
  unfolding validate_backoff
  backoff_iff debounce none = (λ _. tt, λ _. refl)
  backoff_iff debounce (some b) = elim (Bool-cases b.enabled) [
    | inl on ↦ (
      λ h. (λ _. (enabled-IsBackoff_iff debounce b).0 (ground arith), ground arith),
      λ (v, timeout). let e = (enabled-IsBackoff_iff debounce b).1 (v on) in ground arith,
    )
    | inr off ↦ (λ h. (λ on. absurd (ground arith), ground arith), λ (v, timeout). ground arith)
  ]

  -- Validate returns no error exactly for the configurations that satisfy every condition on their
  -- fields.
  pub validate_iff :
      (parse_address : Text → Bool) (c : SyncConfig Float)
      → (validate ops parse_address c ≡ ok tt) ↔ IsConfig ops parse_address c
  unfolding validate
  validate_iff parse_address c = (parts, whole)
    where
      parts : validate ops parse_address c ≡ ok tt → IsConfig ops parse_address c
      parts h =
          let (_, e₁, r₁) = split_bind (reject (is_empty c.version) version_required) _ tt h in
          let (_, e₂, r₂) = split_bind (reject (is_empty c.machine) machine_required) _ tt r₁ in
          let (_, e₃, r₃) = split_bind (validate_git parse_address c.git) _ tt r₂ in
          let (_, e₄, r₄) = split_bind (validate_sync c.sync) _ tt r₃ in
          let (_, e₅, r₅) = split_bind (validate_conflict c.conflict_resolution) _ tt r₄ in
          let (_, e₆, r₆) = split_bind (validate_ui c.ui) _ tt r₅ in
          let (_, e₇, r₇) = split_bind (validate_advanced c.advanced) _ tt r₆ in
          let (_, e₈, r₈) = split_bind (validate_mappings c.mappings) _ tt r₇ in
          let (least, most) = (advanced_iff c.advanced).0 e₇ in
          record {
            version = ground arith;
            machine = ground arith;
            git = (IsGit-iff parse_address c.git).0 e₃;
            sync = (IsSync-iff c.sync).0 e₄;
            conflict = (IsConflict-iff c.conflict_resolution).0 e₅;
            theme = (theme_iff c.ui).0 e₆;
            log_size = least;
            log_size_below = most;
            mappings = (mappings_iff c.mappings).0 e₈;
            backoff = (backoff_iff c.sync.debounce_seconds c.sync.backoff).0 r₈;
          }

      whole : IsConfig ops parse_address c → validate ops parse_address c ≡ ok tt
      whole v =
          let e₁ : is_empty c.version ≡ false = ground (arith, v.version) in
          let e₂ : is_empty c.machine ≡ false = ground (arith, v.machine) in
          rw
            (
              e₁,
              e₂,
              (IsGit-iff parse_address c.git).1 v.git,
              (IsSync-iff c.sync).1 v.sync,
              (IsConflict-iff c.conflict_resolution).1 v.conflict,
              (theme_iff c.ui).1 v.theme,
              (advanced_iff c.advanced).1 (v.log_size, v.log_size_below),
              (mappings_iff c.mappings).1 v.mappings,
              validate,
            )
            ((backoff_iff c.sync.debounce_seconds c.sync.backoff).1 v.backoff)
