-- ===== src/Metrics/Gauges.antt =====
-- The gauges of the trust anchors' staleness: `RegisterAnchorStalenessGauges` of
-- internal/obs/metrics.go.
pub mod Newest
use eudi_verifier_core.Prelude.{
  String, Bool, Option, none, some, List, [], ◌∷◌, ◌++◌, Bytes, bytes, quote, bytes_equal, exists,
  if◌then◌else◌,
}

-- The function that a gauge is registered with; the type that it closes over.
pub record Callback : Type 0 where
  pub typ : String

-- The registry of the metrics library, over its state `R`: `GetOrCreateGauge`, and the function that
-- a scrape calls for a series.
pub record Registry (R : Type 0) : Type 0 where
  pub get_or_create_gauge : (name : Bytes) → Callback → R → R
  pub registered : (name : Bytes) → R → Option Callback

-- The state of the process: `currentStaleness`, a function to values of a type `F`,
-- `stalenessGaugeSet`, and the registry.
pub record Gauges (R F : Type 0) : Type 0 where
  pub current : Option (String → F)
  pub gauge_set : List Bytes
  pub registry : R

-- The name of a type's series.
unfoldable pub series : String → Bytes
series typ = bytes "verifier_core_anchor_staleness_seconds{type=" ++ (quote typ ++ bytes "}")

unfoldable pub is_loaded : Bytes → List Bytes → Bool
is_loaded name names = exists (bytes_equal name) names

module _ {R F : Type 0} (reg : Registry R) where
  -- One round of the loop.
  unfoldable pub register_type : String → Gauges R F → Gauges R F
  register_type typ g = if is_loaded (series typ) g.gauge_set then g else record g {
    gauge_set = series typ ∷ g.gauge_set;
    registry = reg.get_or_create_gauge (series typ) (record { typ = typ }) g.registry;
  }

  unfoldable pub register_types : List String → Gauges R F → Gauges R F
  unfolding register_type
  register_types [] g = g
  register_types (typ ∷ types) g = register_types types (register_type typ g)

  -- `RegisterAnchorStalenessGauges`
  unfoldable pub register_anchor_staleness_gauges :
      (types : List String) → (String → F) → Gauges R F → Gauges R F
  unfolding register_types
  register_anchor_staleness_gauges types seconds_until_expiry g =
      register_types types (record g { current = some seconds_until_expiry })

  -- The registered function, which reads the current source when it is called; `missing` is -1.
  unfoldable pub call : (missing : F) → Gauges R F → Callback → F
  call missing g c = elim g.current [ none ↦ missing | some lookup ↦ lookup c.typ ]

  -- What a scrape reads of a series.
  unfoldable pub scrape : (missing : F) → Bytes → Gauges R F → Option F
  unfolding call
  scrape missing name g = elim (reg.registered name g.registry) [
    | none ↦ none
    | some c ↦ some (call missing g c)
  ]
