-- ===== src/System.antt =====
-- The write side as a whole: the ERP (erp/*.go) fills the outbox that the relays (relay/*.go) empty
-- onto the topic.
pub mod Keys
pub mod Runs
pub mod Tests
use seshatops.Base.{ℕ, List, [], ◌∷◌, Bytes}
use seshatops.Event.Json.{Tokens}
use seshatops.Relay.Publish.{LogRecord}
use seshatops.Relay.Publish.Fleet.{Claimed, Fleet, Act, act}
use seshatops.Erp.World.{ErpDb}
use seshatops.Erp.Ledger.{Command, run_command}

-- The tables of the ERP, the topic, and the records that relays have claimed.
pub record Site : Type 0 where
  pub erp : ErpDb
  pub log : List LogRecord
  pub held : List Claimed

pub data SiteStep : Type 0 where
  command_step : Command → SiteStep
  relay_act : Act → SiteStep

-- What the relays see.
abbrev pub fleet_of : Site → Fleet
fleet_of s = record { world = record { rows = s.erp.outbox; log = s.log }; held = s.held }

abbrev pub with_fleet : Site → Fleet → Site
with_fleet s f = record {
  erp = record s.erp { outbox = f.world.rows };
  log = f.world.log;
  held = f.held;
}

module _ (lower : ℕ → ℕ) (hash : Bytes → Bytes) (tokens : Bytes → Tokens) where
  unfoldable pub site_step : SiteStep → Site → Site
  site_step (command_step c) s = record s { erp = run_command lower hash c s.erp }
  site_step (relay_act a) s = with_fleet s (act lower tokens a (fleet_of s))

  unfoldable pub run_site : List SiteStep → Site → Site
  run_site [] s = s
  run_site (x ∷ xs) s = run_site xs (site_step x s)
