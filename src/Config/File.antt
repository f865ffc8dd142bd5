-- ===== src/Config/File.antt =====
-- src/config/file.rs and src/config/mod.rs: the reading of the configuration. Opening and reading a
-- file, and the deserializer that `toml` and `serde` make of the records, are parameters.
use bgpd_rs.Base.{
  ℕ, ◌≡◌, subst, Option, some, Outcome, ok, expect, ◌>>=◌, expect-eq-ok, >>=-eq-ok, arith,
}
use bgpd_rs.Base.Text.{Text}
use bgpd_rs.Base.Within.{Within, Every, Every-within}
use bgpd_rs.Config.{PeerConfig, ServerConfigSpec, ServerConfig, from_spec}

-- `File::open` and `read_to_string` at one time, with their errors by number.
abbrev pub Files : Type 0
Files = Text → Outcome ℕ Text

module _ (from_str : Text → Option ServerConfigSpec) where
  -- `ServerConfigSpec::from_file`; the `unwrap` panics on a malformed text.
  spec_from_file : Files → Text → Outcome ℕ ServerConfigSpec
  spec_from_file read path = do contents ← read path; expect (from_str contents)

  unfoldable pub from_file : Files → Text → Outcome ℕ ServerConfig
  unfolding spec_from_file
  from_file read path = do spec ← spec_from_file read path; ok (from_spec spec)

  -- A peer of a well-formed text, of those that `was` has.
  module _ (was : Text → Type 0) where
    abbrev pub FromFile : PeerConfig → Type 0
    FromFile c =
        (contents : Text) × (spec : ServerConfigSpec) × was contents
        × (from_str contents ≡ some spec)
        × Within c (from_spec spec).peers

    pub from_file-FromFile :
        (read : Files) (path : Text) {config : ServerConfig}
        → ((contents : Text) → read path ≡ ok contents → was contents)
        → from_file read path ≡ ok config
        → Every FromFile config.peers
    unfolding from_file
    from_file-FromFile read path {config} reads h =
        let (spec, hs, made) = >>=-eq-ok (spec_from_file read path) _ h in
        let (contents, hr, he) = >>=-eq-ok (read path) _ hs in
        let parsed : from_str contents ≡ some spec = expect-eq-ok (from_str contents) he in
        let same : from_spec spec ≡ config = grind arith in
        subst (λ (c : ServerConfig). Every FromFile c.peers) same
          (Every-within FromFile (from_spec spec).peers
            (λ c w. (contents, spec, reads contents hr, parsed, w)))
