-- ===== src/Program.antt =====
-- src/main.rs: the start of the daemon, and the thread that reads its configuration anew.
pub mod Reloading
pub mod Lifetime
use bgpd_rs.Base.{
  ℕ, zero, suc, Bool, true, false, if◌then◌else◌, List, [], ◌∷◌, Option, none, some, Outcome, ok,
  err, panic, map_err, ◌>>=◌,
}
use bgpd_rs.Base.Text.{Text}
use bgpd_rs.Bgp.{SocketAddr}
use bgpd_rs.Config.{ServerConfigSpec, ServerConfig, unwrap_or}
use bgpd_rs.Config.File.{Files, from_file}
use bgpd_rs.Handler.{State}
use bgpd_rs.Handler.Start.{new}
use bgpd_rs.Rib.Attributes.{AttributeApi}
use bgpd_rs.Session.Poller.{NetworkApi}
use bgpd_rs.Utils.Api.{TextApi, FilterLimits}
use bgpd_rs.Utils.Error.{ParseError}

pub data LevelFilter : Type 0 where
  warn info debug trace : LevelFilter

-- The levels of the daemon and of everything else, by the number of `-v`.
abbrev pub log_levels : ℕ → LevelFilter × LevelFilter
log_levels zero = (info, warn)
log_levels (suc zero) = (debug, warn)
log_levels (suc (suc zero)) = (trace, warn)
log_levels (suc (suc (suc _))) = (trace, trace)

-- What the start asks of the host: the files, `TcpListener::bind`, `serve_rpc_api` and
-- `Signals::new`, with their errors by number.
pub record Host : Type 0 where
  pub files : Files
  pub bind : SocketAddr → Outcome ℕ (Unit {0})
  pub serve_rpc_api : SocketAddr → Outcome ℕ (Unit {0})
  pub signals : Outcome ℕ (Unit {0})

pub data Failure : Type 0 where
  io : ℕ → Failure
  invalid : ParseError → Failure

-- The thread for SIGHUP: whether it still runs, and the value in the `watch` channel.
pub record Reloader : Type 0 where
  pub config_path : Text
  pub running : Bool
  pub config_tx : ServerConfig

pub record Program : Type 0 where
  pub server : State
  pub reloader : Reloader

reloaded : Reloader → Outcome ℕ ServerConfig → Reloader
reloaded r (ok new_config) = record r { config_tx = new_config }
reloaded r (err e) = r
reloaded r panic = record r { running = false }

module _ (from_str : Text → Option ServerConfigSpec) where
  -- One signal.
  unfoldable pub reload : Reloader → Files → Reloader
  unfolding reloaded
  reload r files = if r.running then reloaded r (from_file from_str files r.config_path) else r

  -- `for sig in signals.forever()`, with the files as they are at each signal.
  unfoldable pub reload_each : Reloader → List Files → Reloader
  unfolding reload
  reload_each r [] = r
  reload_each r (files ∷ later) = reload_each (reload r files) later

  module _ (lib : AttributeApi) (api : TextApi) (limits : FilterLimits) (net : NetworkApi) where
    -- The arm of `main` for the command `run`, up to the loop of the server.
    unfoldable pub launch :
        Host → (config_path : Text) → Option SocketAddr → (clock : ℕ → ℕ) → Outcome Failure Program
    launch host config_path api_socket clock = do
      config ← map_err io (from_file from_str host.files config_path)
      _ ← map_err io (host.bind config.bgp_socket)
      server ← map_err invalid (new lib api limits clock net config)
      _ ← map_err io (host.serve_rpc_api (unwrap_or api_socket config.api_socket))
      _ ← map_err io host.signals
      ok (record {
        server = server;
        reloader = record { config_path = config_path; running = true; config_tx = config };
      })
