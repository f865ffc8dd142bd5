-- ===== src/Rib/Families.antt =====
-- src/rib/families.rs: an address family, and the families of a session as a set.
use bgpd_rs.Base.{Bool, List, Eq, derived_eq, retain, contains as mem}
use bgpd_rs.Bgp.{Afi, Safi, Afi-discrete, Safi-discrete, OpenCapability, multi_protocol}

pub record Family : Type 0 where
  pub afi : Afi
  pub safi : Safi

unfoldable pub Family-discrete : Discrete Family
unfolding Afi-discrete Safi-discrete
Family-discrete = hlevel (Afi-discrete, Safi-discrete)

instance abbrev pub family_Eq : Eq Family
family_Eq = derived_eq Family-discrete

unfoldable pub to_open_param : Family → OpenCapability
to_open_param f = multi_protocol (f.afi, f.safi)

-- A `HashSet` of families: a list, in the order of iteration.
pub record Families : Type 0 where
  pub set : List Family

unfoldable pub new : List Family → Families
new families = record { set = families }

unfoldable pub common : Families → Families → Families
common self other = record { set = retain (λ f. mem f other.set) self.set }

unfoldable pub contains : Families → Family → Bool
contains self family = mem family self.set
