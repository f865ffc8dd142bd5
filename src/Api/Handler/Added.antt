-- ===== src/Api/Handler/Added.antt =====
-- src/api/handler.rs: what the two calls that add to the table leave of the daemon.
use bgpd_rs.Base.{◌≡◌, ap, sym, subst, ℕ, ok, >>=-eq-ok, map_err, arith}
use bgpd_rs.Api.Handler.{ApiError, custom, insert, advertise_route, advertise_flow}
use bgpd_rs.Api.Routes.{entry_to_route}
use bgpd_rs.Api.Rpc.{LearnedRoute}
use bgpd_rs.Config.Specs.{RouteSpec, FlowSpec}
use bgpd_rs.Handler.{State}
use bgpd_rs.Rib.{insert_from_api}
use bgpd_rs.Rib.Attributes.{AttributeApi}
use bgpd_rs.Rib.Histories.{Reach, from_api}
use bgpd_rs.Rib.Insertions.Api.{insert_from_api-any}
use bgpd_rs.Session.Error.{SessionError}
use bgpd_rs.Utils.Api.{TextApi, FilterLimits}
use bgpd_rs.Utils.Specs.{Parts, parse_route_spec, parse_flow_spec}

module _ (lib : AttributeApi) (api : TextApi) where
  -- The sessions are as they were, and the table has a history if it had one.
  abbrev pub Adds : State → State → Type 0
  Adds s s' = (s'.sessions ≡ s.sessions) × (Reach lib s.rib → Reach lib s'.rib)

  insert-Adds :
      (s : State) (parts : Parts) (now : ℕ) {shown : LearnedRoute} {s' : State}
      → insert lib api s parts now ≡ ok (shown, s')
      → Adds s s'
  unfolding insert
  insert-Adds s (family, (attributes, nlri)) now {shown} {s'} h =
      let ((x, rib), hx, last) =
        >>=-eq-ok (insert_from_api lib {E = ApiError} s.rib family attributes nlri now) _ h in
      let made : ◌≡◌ {A = LearnedRoute × State} (entry_to_route api x now, record s { rib = rib })
          (shown, s') =
        ground arith in
      (
        sym (ap (λ (p : LearnedRoute × State). p.1.sessions) made),
        λ w. subst (Reach lib) (ap (λ (p : LearnedRoute × State). p.1.rib) made) (
            from_api family attributes nlri now x w
              (insert_from_api-any {F = SessionError} lib s.rib family attributes nlri now hx)),
      )

  pub advertise_route-Adds :
      (s : State) (route : RouteSpec) (now : ℕ) {shown : LearnedRoute} {s' : State}
      → advertise_route lib api s route now ≡ ok (shown, s')
      → Adds s s'
  unfolding advertise_route
  advertise_route-Adds s route now h =
      let (parts, hp, rest) = >>=-eq-ok (map_err custom (parse_route_spec api route)) _ h in
      insert-Adds s parts now rest

  pub advertise_flow-Adds :
      (limits : FilterLimits) (s : State) (flow : FlowSpec) (now : ℕ) {shown : LearnedRoute}
      {s' : State}
      → advertise_flow lib api limits s flow now ≡ ok (shown, s')
      → Adds s s'
  unfolding advertise_flow
  advertise_flow-Adds limits s flow now h =
      let (parts, hp, rest) = >>=-eq-ok (map_err custom (parse_flow_spec api limits flow)) _ h in
      insert-Adds s parts now rest
