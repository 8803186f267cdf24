-- ===== src/Metrics/Gauges/Newest.antt =====
-- The gauges read the newest source.
use eudi_verifier_core.Prelude.{
  String, true, false, none, some, List, [], ◌∷◌, ◌≡◌, ◌⊎◌, inl, inr, refl, sym, ◌∙◌, Bytes,
  bytes_equal, bytes_equal_refl, bytes_equal-eq, str_eq, eq_iff, exists, Bool-cases, arith,
}
use eudi_verifier_core.Metrics.Gauges.{
  Callback, Registry, Gauges, series, is_loaded, register_type, register_types,
  register_anchor_staleness_gauges, call, scrape,
}

-- What the metrics library documents: the first call for a name registers its function, and a call
-- for one name leaves the others as they are.
pub record IsRegistry {R : Type 0} (reg : Registry R) : Type 0 where
  pub fresh :
      (name : Bytes) (d : Callback) (r : R)
      → reg.registered name r ≡ none
      → reg.registered name (reg.get_or_create_gauge name d r) ≡ some d
  pub apart :
      (name other : Bytes) (d : Callback) (r : R)
      → bytes_equal other name ≡ false
      → reg.registered other (reg.get_or_create_gauge name d r) ≡ reg.registered other r

-- The gauge of a series, registered for a type of this series.
pub record Reads {R F : Type 0} (reg : Registry R) (g : Gauges R F) (name : Bytes) : Type 0 where
  pub typ : String
  pub same : series typ ≡ name
  pub held : reg.registered name g.registry ≡ some (record { typ = typ })

-- The set names exactly the series that are registered, each with the function for its type.
pub record IsSound {R F : Type 0} (reg : Registry R) (g : Gauges R F) : Type 0 where
  pub known : (name : Bytes) → is_loaded name g.gauge_set ≡ true → Reads reg g name
  pub absent :
      (name : Bytes) → is_loaded name g.gauge_set ≡ false → reg.registered name g.registry ≡ none

module _ {R F : Type 0} (reg : Registry R) (laws : IsRegistry reg) where
  -- The state after one more series.
  with_series : (name : Bytes) → String → Gauges R F → Gauges R F
  with_series name typ g = record g {
    gauge_set = name ∷ g.gauge_set;
    registry = reg.get_or_create_gauge name (record { typ = typ }) g.registry;
  }

  with_series-IsSound :
      (name : Bytes) (typ : String) (g : Gauges R F)
      → series typ ≡ name
      → is_loaded name g.gauge_set ≡ false
      → IsSound reg g
      → IsSound reg (with_series name typ g)
  unfolding with_series is_loaded
  with_series-IsSound name typ g same new s = record {
    known = λ other h. elim (Bool-cases (bytes_equal other name)) [
      | inl e ↦ record {
        typ = typ;
        same = same ∙ sym (bytes_equal-eq other name e);
        held = rw (bytes_equal-eq other name e) (laws.fresh name _ g.registry (s.absent name new));
      }
      | inr e ↦
          let old = s.known other (rw e at h) in
          record {
            typ = old.typ;
            same = old.same;
            held = laws.apart name other _ g.registry e ∙ old.held;
          }
    ];
    absent = λ other h. elim (Bool-cases (bytes_equal other name)) [
      | inl e ↦ absurd (cc (rw e at h))
      | inr e ↦ laws.apart name other _ g.registry e ∙ s.absent other (rw e at h)
    ];
  }

  register_type-IsSound :
      (typ : String) (g : Gauges R F) → IsSound reg g → IsSound reg (register_type reg typ g)
  unfolding register_type with_series
  register_type-IsSound typ g s = elim (Bool-cases (is_loaded (series typ) g.gauge_set)) [
    | inl e ↦ rw (e, register_type) s
    | inr e ↦ rw (e, register_type) (with_series-IsSound (series typ) typ g refl e s)
  ]

  register_types-IsSound :
      (types : List String) (g : Gauges R F)
      → IsSound reg g
      → IsSound reg (register_types reg types g)
  unfolding register_types
  register_types-IsSound [] g s = s
  register_types-IsSound (typ ∷ types) g s =
      register_types-IsSound types (register_type reg typ g) (register_type-IsSound typ g s)

  -- The set does not shrink, and the source stays.
  register_type-loaded :
      (typ : String) (name : Bytes) (g : Gauges R F)
      → is_loaded name g.gauge_set ≡ true
      → is_loaded name (register_type reg typ g).gauge_set ≡ true
  unfolding register_type is_loaded
  register_type-loaded typ name g h = ground arith

  register_type-adds :
      (typ : String) (g : Gauges R F)
      → is_loaded (series typ) (register_type reg typ g).gauge_set ≡ true
  unfolding register_type is_loaded
  register_type-adds typ g = ground (arith, bytes_equal_refl (series typ))

  register_types-loaded :
      (types : List String) (name : Bytes) (g : Gauges R F)
      → is_loaded name g.gauge_set ≡ true
      → is_loaded name (register_types reg types g).gauge_set ≡ true
  unfolding register_types
  register_types-loaded [] name g h = h
  register_types-loaded (typ ∷ types) name g h =
      register_types-loaded types name (register_type reg typ g) (register_type-loaded typ name g h)

  register_types-adds :
      (types : List String) (typ : String) (g : Gauges R F)
      → exists (λ t. str_eq t typ) types ≡ true
      → is_loaded (series typ) (register_types reg types g).gauge_set ≡ true
  unfolding register_types
  register_types-adds [] typ g h = absurd (cc h)
  register_types-adds (t ∷ types) typ g h = elim (Bool-cases (str_eq t typ)) [
    | inl e ↦
        register_types-loaded types (series typ) (register_type reg t g)
          (rw (sym ((eq_iff t typ).0 e)) (register_type-adds t g))
    | inr e ↦ register_types-adds types typ (register_type reg t g) (rw e at h)
  ]

  register_types-current :
      (types : List String) (g : Gauges R F) → (register_types reg types g).current ≡ g.current
  unfolding register_types register_type
  register_types-current [] g = refl
  register_types-current (typ ∷ types) g =
      register_types-current types (register_type reg typ g) ∙ ground arith

-- The state with another source.
with_source : {R F : Type 0} → (String → F) → Gauges R F → Gauges R F
with_source source g = record g { current = some source }

with_source-IsSound :
    {R F : Type 0} (reg : Registry R) (source : String → F) (g : Gauges R F)
    → IsSound reg g
    → IsSound reg (with_source source g)
unfolding with_source
with_source-IsSound reg source g s = record {
  known = λ name h. let r = s.known name h in record { typ = r.typ; same = r.same; held = r.held };
  absent = s.absent;
}

-- One call of the registration: its types and its source.
pub record Registration (F : Type 0) : Type 0 where
  pub types : List String
  pub source : String → F

-- A history of registrations, the oldest first.
unfoldable pub replayed :
    {R F : Type 0} → Registry R → List (Registration F) → Gauges R F → Gauges R F
replayed reg [] g = g
replayed reg (c ∷ calls) g =
    replayed reg calls (register_anchor_staleness_gauges reg c.types c.source g)

replayed-IsSound :
    {R F : Type 0} (reg : Registry R)
    → IsRegistry reg
    → (calls : List (Registration F)) (g : Gauges R F) → IsSound reg g
    → IsSound reg (replayed reg calls g)
unfolding replayed register_anchor_staleness_gauges with_source
replayed-IsSound reg laws [] g s = s
replayed-IsSound reg laws (c ∷ calls) g s =
    replayed-IsSound reg laws calls _
      (register_types-IsSound reg laws c.types _ (with_source-IsSound reg c.source g s))

-- Whatever was registered before in the process, after a registration every series that is known,
-- of an older call or of this one, reads the source of this newest call, at a type of the series.
pub register_anchor_staleness_gauges-newest :
    {R F : Type 0} (reg : Registry R) (missing : F) (g : Gauges R F)
    (earlier : List (Registration F)) (newest : Registration F) (typ : String)
    → IsRegistry reg
    → IsSound reg g
    → is_loaded (series typ) (replayed reg earlier g).gauge_set ≡ true
      ⊎ exists (λ t. str_eq t typ) newest.types ≡ true
    → (t : String) × (series t ≡ series typ)
      × (scrape reg missing (series typ) (
            register_anchor_staleness_gauges reg newest.types newest.source
              (replayed reg earlier g))
          ≡ some (newest.source t))
unfolding scrape call register_anchor_staleness_gauges with_source
register_anchor_staleness_gauges-newest reg missing g earlier newest typ laws s h =
    let before = with_source newest.source (replayed reg earlier g) in
    let after =
      register_types-IsSound reg laws newest.types before
        (with_source-IsSound reg newest.source _ (replayed-IsSound reg laws earlier g s)) in
    let r = after.known (series typ) (elim h [
      | inl old ↦ register_types-loaded reg laws newest.types (series typ) before old
      | inr listed ↦ register_types-adds reg laws newest.types typ before listed
    ]) in
    (
      r.typ,
      r.same,
      rw (r.held, scrape, call, register_types-current reg laws newest.types before) refl,
    )
