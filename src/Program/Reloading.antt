-- ===== src/Program/Reloading.antt =====
-- src/main.rs with src/session/manager.rs: the configuration after some signals.
use bgpd_rs.Base.{
  ℕ, ◌≡◌, refl, sym, ◌∙◌, ap, Bool, true, false, not, if◌then◌else◌, List, [], ◌∷◌, map, Option,
  some, Outcome, ok, err, panic,
}
use bgpd_rs.Base.Map
use bgpd_rs.Base.Text.{Text}
use bgpd_rs.Bgp.{IpAddr, ip_addr_Eq, OpenParameter, Capabilities}
use bgpd_rs.Config.{ServerConfigSpec, ServerConfig}
use bgpd_rs.Config.File.{Files, from_file}
use bgpd_rs.Program.{Reloader, reloaded, reload, reload_each}
use bgpd_rs.Session.Manager.{Manager, configured, by_network, wake}
use bgpd_rs.Session.Manager.Reload.{wake-configured}
use bgpd_rs.Session.Peer.{Session}
use bgpd_rs.Session.Poller.{NetworkApi, get_config_for_peer}
use bgpd_rs.Session.Run.{Event}

-- The configurations that were read before the first panic.
abbrev pub readable : List (Outcome ℕ ServerConfig) → List ServerConfig
readable [] = []
readable (ok config ∷ rest) = config ∷ readable rest
readable (err _ ∷ rest) = readable rest
readable (panic ∷ rest) = []

abbrev pub panics : List (Outcome ℕ ServerConfig) → Bool
panics [] = false
panics (ok _ ∷ rest) = panics rest
panics (err _ ∷ rest) = panics rest
panics (panic ∷ rest) = true

abbrev pub last_or {ℓ} : {A : Type ℓ} → A → List A → A
last_or a [] = a
last_or a (b ∷ bs) = last_or b bs

module _ (from_str : Text → Option ServerConfigSpec) where
  -- What the thread reads at each signal.
  abbrev pub read_at : Reloader → List Files → List (Outcome ℕ ServerConfig)
  read_at r signals = map (λ files. from_file from_str files r.config_path) signals

  reload-runs :
      (r : Reloader) (files : Files)
      → r.running ≡ true
      → reload from_str r files ≡ reloaded r (from_file from_str files r.config_path)
  unfolding reload
  reload-runs r files h =
      ap (λ b. if b then reloaded r (from_file from_str files r.config_path) else r) h

  reload_each-stopped :
      (r : Reloader) (signals : List Files) → r.running ≡ false → reload_each from_str r signals ≡ r
  unfolding reload_each reload
  reload_each-stopped r [] h = refl
  reload_each-stopped r (files ∷ later) h =
      ap
        (λ b.
          reload_each from_str
            (if b then reloaded r (from_file from_str files r.config_path) else r) later)
        h
      ∙ reload_each-stopped r later h

  -- What the thread is after some readings.
  abbrev after : Reloader → List (Outcome ℕ ServerConfig) → Reloader
  after r readings = record {
    config_path = r.config_path;
    running = not (panics readings);
    config_tx = last_or r.config_tx (readable readings);
  }

  -- A thread that runs keeps its path. After any signals the channel has the last configuration
  -- that was read before a malformed file, or the one that it had where there is none, and the
  -- thread runs on exactly if no file was malformed.
  pub reload_each-readable :
      (r : Reloader) (signals : List Files)
      → r.running ≡ true
      → reload_each from_str r signals ≡ after r (read_at r signals)
  unfolding reload_each reloaded
  reload_each-readable r [] h = ap (λ b. record r { running = b }) h
  reload_each-readable r (files ∷ later) h =
      ap (λ q. reload_each from_str q later) (reload-runs r files h)
      ∙ next (λ q running. reload_each-readable q later running)
          (from_file from_str files r.config_path)
    where
      next :
          ((q : Reloader)
            → q.running ≡ true
            → reload_each from_str q later ≡ after q (read_at q later))
          → (reading : Outcome ℕ ServerConfig)
          → reload_each from_str (reloaded r reading) later ≡ after r (reading ∷ read_at r later)
      next step (ok config) = step (record r { config_tx = config }) h
      next step (err e) = step r h
      next step panic = reload_each-stopped (record r { running = false }) later refl

  -- After any signals, when the manager has taken the configuration in the channel, every session
  -- that is left has the configuration for its address of the last file that was read before a
  -- malformed one.
  pub reload_each-wake :
      (net : NetworkApi) (from_parameters : List OpenParameter → Capabilities)
      (events : IpAddr → Event) (now : ℕ) (r : Reloader) (signals : List Files) (m : Manager)
      {m' : Manager}
      → r.running ≡ true
      → wake net from_parameters events now m
          (configured (reload_each from_str r signals).config_tx)
        ≡ ok m'
      → (ip : IpAddr) (s : Session) → Map.get ip m'.sessions ≡ some s
      → get_config_for_peer net
          (by_network net from_parameters events now
            (last_or r.config_tx (readable (read_at r signals))).peers)
          ip
        ≡ some s.config
  reload_each-wake net from_parameters events now r signals m h hw ip s here =
      let seen = ap (λ (q : Reloader). q.config_tx) (reload_each-readable r signals h) in
      ap
        (λ (c : ServerConfig).
          get_config_for_peer net (by_network net from_parameters events now c.peers) ip)
        (sym seen)
      ∙ wake-configured net from_parameters events now m _ hw ip s here
