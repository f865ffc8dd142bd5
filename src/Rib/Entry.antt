-- ===== src/Rib/Entry.antt =====
-- src/rib/mod.rs (entries) and src/rib/export.rs. A `DateTime<Utc>` is a number of nanoseconds.
use bgpd_rs.Base.{ℕ, Eq, derived_eq}
use bgpd_rs.Bgp.{IpAddr, IpAddr-discrete, NlriEncoding}
use bgpd_rs.Rib.Attributes.{PathAttributes}
use bgpd_rs.Rib.Families.{Family}

pub data EntrySource : Type 0 where
  api config : EntrySource
  peer : IpAddr → EntrySource

unfoldable pub EntrySource-discrete : Discrete EntrySource
unfolding IpAddr-discrete
EntrySource-discrete = hlevel IpAddr-discrete

instance abbrev pub source_Eq : Eq EntrySource
source_Eq = derived_eq EntrySource-discrete

pub record RibEntry : Type 0 where
  pub family : Family
  pub source : EntrySource
  pub timestamp : ℕ
  pub nlri : NlriEncoding

pub record ExportedUpdate : Type 0 where
  pub family : Family
  pub attributes : PathAttributes
  pub nlri : NlriEncoding

pub record ExportEntry : Type 0 where
  pub timestamp : ℕ
  pub update : ExportedUpdate
  pub source : EntrySource

-- `impl From<(&RibEntry, Arc<PathAttributes>)> for ExportEntry`
abbrev pub export : RibEntry → PathAttributes → ExportEntry
export e a = record {
  timestamp = e.timestamp;
  source = e.source;
  update = record { family = e.family; attributes = a; nlri = e.nlri };
}
