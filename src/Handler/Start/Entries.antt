-- ===== src/Handler/Start/Entries.antt =====
-- src/handler.rs: what the table holds when the daemon starts.
use mathlib.Core.List.{append_assoc, append-nil}
use mathlib.Core.List.Perm
use bgpd_rs.Base.{
  ℕ, suc, ◌+◌, ◌≡◌, refl, subst, List, [], ◌∷◌, ◌++◌, flat_map, length, length-append, Perm,
  Outcome, ok, collect, ◌>>=◌, >>=-eq-ok, arith, nat_Eq,
}
use bgpd_rs.Config.{PeerConfig, ServerConfig}
use bgpd_rs.Handler.{State}
use bgpd_rs.Handler.Start.{Loading, insert_specs, insert_peer, insert_peers, new}
use bgpd_rs.Rib
use bgpd_rs.Rib.{Rib, pairs, keyed, add_entries, insert_from_config}
use bgpd_rs.Rib.Attributes.{AttributeApi, hash, from_attributes}
use bgpd_rs.Rib.Entry.{RibEntry, config}
use bgpd_rs.Rib.Histories.{Reach, start, from_config}
use bgpd_rs.Rib.Insertions.{insert_from_config-any, insert_from_config-pairs}
use bgpd_rs.Session.Manager
use bgpd_rs.Session.Error.{SessionError}
use bgpd_rs.Session.Poller.{NetworkApi}
use bgpd_rs.Utils.Api.{TextApi, FilterLimits}
use bgpd_rs.Utils.Error.{ParseError}
use bgpd_rs.Utils.Specs.{Parts, parse_route_spec, parse_flow_spec}

pairs-new : pairs Rib.new ≡ []
unfolding pairs Rib.new flat_map
pairs-new = refl

module _ (lib : AttributeApi) where
  -- The entries that some parsed specifications should give, from the `i`-th reading of the clock on.
  abbrev pub Entered : (ℕ → ℕ) → ℕ → List Parts → List (ℕ × RibEntry) → Type 0
  Entered clock i [] [] = Unit {0}
  Entered clock i ((f, (as', n)) ∷ parts) ((key, e) ∷ es) =
      (hash lib {E = SessionError} (from_attributes lib as') ≡ ok key)
      × (e ≡ record { source = config; family = f; timestamp = clock i; nlri = n })
      × Entered clock (suc i) parts es
  Entered clock i _ _ = ⊥

  Entered-append :
      (clock : ℕ → ℕ) (i : ℕ) (ps : List Parts) (es : List (ℕ × RibEntry)) (qs : List Parts)
      (fs : List (ℕ × RibEntry))
      → Entered clock i ps es
      → Entered clock (i + length ps) qs fs
      → Entered clock i (ps ++ qs) (es ++ fs)
  Entered-append clock i [] [] qs fs h k = subst (λ j. Entered clock j qs fs) (omega arith) k
  Entered-append clock i ((f, (as', n)) ∷ ps) ((key, e) ∷ es) qs fs (x, y, h) k = (
    x,
    y,
    Entered-append clock (suc i) ps es qs fs h (subst (λ j. Entered clock j qs fs) (omega arith) k),
  )
  Entered-append clock i [] (_ ∷ _) qs fs h k = absurd h
  Entered-append clock i (_ ∷ _) [] qs fs h k = absurd h

  -- A loading that parses `parts` and enters them.
  abbrev pub Loads : (ℕ → ℕ) → Loading → Loading → List Parts → Type 0
  Loads clock (i, r) (i', r') parts =
      (i' ≡ i + length parts)
      × ((es : List (ℕ × RibEntry)) × (Entered clock i parts es × Perm (pairs r') (pairs r ++ es)))
      × (Reach lib r → Reach lib r')

  Loads-done : (clock : ℕ → ℕ) (l : Loading) → Loads clock l l []
  Loads-done clock (i, r) = (omega arith, ([], (tt, rw append-nil (Perm.refl _))), λ w. w)

  Loads-then :
      (clock : ℕ → ℕ) (l m n : Loading) (ps qs : List Parts)
      → Loads clock l m ps
      → Loads clock m n qs
      → Loads clock l n (ps ++ qs)
  Loads-then clock (i, r) (j, s) (k, t) ps qs (hj, (es, (he, pe)), w) (hk, (fs, (hf, pf)), w') = (
    omega (arith, length-append ps qs),
    (
      es ++ fs,
      (
        Entered-append clock i ps es qs fs he (subst (λ j. Entered clock j qs fs) hj hf),
        rw (← append_assoc (pairs r) es fs) (Perm.trans pf (Perm.append_right fs pe)),
      ),
    ),
    λ x. w' (w x),
  )

  module _ (api : TextApi) (limits : FilterLimits) (clock : ℕ → ℕ) where
    insert_specs-Loads :
        {A : Type 0} (parse : A → Outcome ParseError Parts) (l : Loading) (specs : List A)
        {l' : Loading}
        → insert_specs lib api limits clock parse l specs ≡ ok l'
        → (ps : List Parts) × (collect parse specs ≡ ok ps) × Loads clock l l' ps
    unfolding insert_specs collect
    insert_specs-Loads parse l [] {l'} h =
        let same : l ≡ l' = ground arith in
        ([], refl, subst (λ m. Loads clock l m []) same (Loads-done clock l))
    insert_specs-Loads parse (i, r) (spec ∷ specs) {l'} h =
        let ((f, (as', n)), hp, rest) = >>=-eq-ok (parse spec) _ h in
        let (r', hr, more) = >>=-eq-ok (insert_from_config lib r f as' n (clock i)) _ rest in
        let (ps, hps, loads) = insert_specs-Loads parse (suc i, r') specs more in
        let (key, (hk, perm)) = insert_from_config-pairs lib r f as' n (clock i) hr in
        (
          (f, (as', n)) ∷ ps,
          ground (arith, hp, hps),
          Loads-then clock (i, r) (suc i, r') l' ((f, (as', n)) ∷ []) ps
              (
                omega arith,
                ((key, _) ∷ [], ((hk, refl, tt), perm)),
                λ w.
                    from_config f as' n (clock i) w
                      (insert_from_config-any lib r f as' n (clock i) hr),
              )
              loads,
        )

    -- The parsed specifications of a peer, the routes before the flows.
    abbrev pub planned_peer : PeerConfig → Outcome ParseError (List Parts)
    planned_peer peer = do
      routes ← collect (parse_route_spec api) peer.static_routes
      flows ← collect (parse_flow_spec api limits) peer.static_flows
      ok (routes ++ flows)

    -- Those of all peers in order.
    abbrev pub planned : List PeerConfig → Outcome ParseError (List Parts)
    planned [] = ok []
    planned (peer ∷ peers) = do first ← planned_peer peer; rest ← planned peers; ok (first ++ rest)

    insert_peer-Loads :
        (l : Loading) (peer : PeerConfig) {l' : Loading}
        → insert_peer lib api limits clock l peer ≡ ok l'
        → (ps : List Parts) × (planned_peer peer ≡ ok ps) × Loads clock l l' ps
    unfolding insert_peer
    insert_peer-Loads l peer {l'} h =
        let (m, hm, rest) =
          >>=-eq-ok (insert_specs lib api limits clock (parse_route_spec api) l peer.static_routes)
            _ h in
        let (ps, hps, first) = insert_specs-Loads (parse_route_spec api) l peer.static_routes hm in
        let (qs, hqs, second) =
          insert_specs-Loads (parse_flow_spec api limits) m peer.static_flows rest in
        (ps ++ qs, rw (hps, hqs) refl, Loads-then clock l m l' ps qs first second)

    insert_peers-Loads :
        (l : Loading) (peers : List PeerConfig) {l' : Loading}
        → insert_peers lib api limits clock l peers ≡ ok l'
        → (ps : List Parts) × (planned peers ≡ ok ps) × Loads clock l l' ps
    unfolding insert_peers
    insert_peers-Loads l [] {l'} h =
        let same : l ≡ l' = ground arith in
        ([], refl, subst (λ m. Loads clock l m []) same (Loads-done clock l))
    insert_peers-Loads l (peer ∷ peers) {l'} h =
        let (m, hm, rest) = >>=-eq-ok (insert_peer lib api limits clock l peer) _ h in
        let (ps, hps, first) = insert_peer-Loads l peer hm in
        let (qs, hqs, second) = insert_peers-Loads m peers rest in
        (ps ++ qs, rw (hps, hqs) refl, Loads-then clock l m l' ps qs first second)

    -- A daemon that starts has parsed every specification of its configuration. Its table has one
    -- entry for each, in any order, under the hash of its attributes, with the source `config` and
    -- the reading of the clock at its place, and no other; and the table has a history.
    pub new-Entered :
        (net : NetworkApi) (settings : ServerConfig) {s : State}
        → new lib api limits clock net settings ≡ ok s
        → (ps : List Parts) × (planned settings.peers ≡ ok ps)
          × ((es : List (ℕ × RibEntry)) × (Entered clock 0 ps es × Perm (pairs s.rib) es))
          × Reach lib s.rib
    unfolding new
    new-Entered net settings {s} h =
        let ((i, r), hr, rest) =
          >>=-eq-ok (insert_peers lib api limits clock (0, Rib.new) settings.peers) _ h in
        let same : r ≡ s.rib = ground arith in
        let (ps, hps, (hi, (es, (he, perm)), reach)) =
          insert_peers-Loads (0, Rib.new) settings.peers hr in
        (
          ps,
          hps,
          (
            es,
            (
              he,
              subst (λ x. Perm (pairs x) es) same
                  (subst (λ none. Perm (pairs r) (none ++ es)) pairs-new perm),
            ),
          ),
          subst (Reach lib) same (reach start),
        )

    -- The manager of a daemon that starts is new.
    pub new-sessions :
        (net : NetworkApi) (settings : ServerConfig) {s : State}
        → new lib api limits clock net settings ≡ ok s
        → s.sessions ≡ Manager.new net settings
    unfolding new
    new-sessions net settings {s} h =
        let ((i, r), hr, rest) =
          >>=-eq-ok (insert_peers lib api limits clock (0, Rib.new) settings.peers) _ h in
        ground arith
