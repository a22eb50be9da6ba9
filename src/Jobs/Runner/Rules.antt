-- ===== src/Jobs/Runner/Rules.antt =====
-- The rule for reading the job, besides those for actions on any state.
use vmware_migration_helper.Jobs.Actions.Hoare.{Pred, Keeps, keeps_rules}
use vmware_migration_helper.Jobs.Runner.{World, get_job}

module _ {P : Pred World} where
  pub Keeps-get_job : Keeps P get_job
  unfolding get_job
  Keeps-get_job = record { at = λ w p. p }

pub ruleset runner_rules = (keeps_rules, Keeps-get_job)
