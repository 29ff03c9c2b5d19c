-- ===== src/Recipe/Data.antt =====
-- The models of src/perovskite_bo/device_recipe.py, as the values that their fields hold.
-- A `float` is a decimal; `None` is `none`.
use perovskite_fabrication_w.Prelude.{ℕ, String, Option, List, Bool, ◌==◌}
use perovskite_fabrication_w.Prelude.Int.{ℤ, Decimal}

pub data LayerType : Type 0 where
  niox sam buried_interface sio2_np perovskite passivation peai edadi pcbm c60 bcp sno2 ag :
      LayerType

pub data LayerRole : Type 0 where
  htl buried_interface_modifier perovskite top_passivation etl top_electrode : LayerRole

pub data Architecture : Type 0 where
  pin nip : Architecture

pub data FormulationType : Type 0 where
  weighed_solids diluted_dispersion : FormulationType

pub data SputterMode : Type 0 where
  rf dc pulsed_dc : SputterMode

pub data Method : Type 0 where
  spin_coating sputtering thermal_evaporation ald : Method

pub record SolidIngredient : Type 0 where
  pub chemical : String
  pub weight_mg : Option Decimal

pub record SolventIngredient : Type 0 where
  pub solvent : String
  pub volume_ml : Option Decimal

pub record SolutionRecipe : Type 0 where
  pub formulation_type : FormulationType
  pub stock_dispersion : String
  pub stock_volume_ml : Option Decimal
  pub solids : List SolidIngredient
  pub solvents : List SolventIngredient

pub record SpinStep : Type 0 where
  pub rpm : Option ℤ
  pub seconds : Option ℤ
  pub acceleration_rpm_per_s : Option ℤ

pub record AnnealStep : Type 0 where
  pub temperature_c : Option ℤ
  pub seconds : Option ℤ

pub record VcdStage : Type 0 where
  pub valve : String
  pub pressure_pa : Option ℤ
  pub seconds : Option ℤ

pub record VcdGasBackfillStage : Type 0 where
  pub gas : String
  pub flow_sccm : Option ℤ
  pub target_pressure_pa : Option ℤ
  pub hold_seconds : Option ℤ

pub record SpinCoatingProcess : Type 0 where
  pub spin_steps : List SpinStep
  pub anneal_steps : List AnnealStep

pub record SputteringProcess : Type 0 where
  pub sputter_mode : SputterMode
  pub power_w : Option Decimal
  pub pressure_pa : Option Decimal
  pub gas1 : String
  pub gas1_flow_sccm : Option Decimal
  pub gas2 : String
  pub gas2_flow_sccm : Option Decimal
  pub duration_seconds : Option ℤ

pub record ThermalEvaporationProcess : Type 0 where
  pub thickness_nm : Option Decimal
  pub rate_angstrom_per_s : Option Decimal

pub record AldProcess : Type 0 where
  pub thickness_nm : Option Decimal
  pub substrate_temperature_c : Option Decimal
  pub cycles : Option ℤ

-- The discriminator `method` is the constructor.
pub data LayerProcess : Type 0 where
  spin : SpinCoatingProcess → LayerProcess
  sputter : SputteringProcess → LayerProcess
  evaporate : ThermalEvaporationProcess → LayerProcess
  deposit : AldProcess → LayerProcess

abbrev pub method_of : LayerProcess → Method
method_of (spin _) = Method.spin_coating
method_of (sputter _) = Method.sputtering
method_of (evaporate _) = Method.thermal_evaporation
method_of (deposit _) = Method.ald

pub record DeviceLayer : Type 0 where
  pub layer_type : LayerType
  pub role : LayerRole
  pub name : String
  pub preset_id : Option String
  pub solution : Option SolutionRecipe
  pub process : Option LayerProcess

pub record PerovskiteDepositionProcess : Type 0 where
  pub spin_steps : List SpinStep
  pub vcd_stages : List VcdStage
  pub gas_backfill_stages : List VcdGasBackfillStage
  pub vcd_step_sequence : List String
  pub anneal_steps : List AnnealStep

pub record SubstrateRecipe : Type 0 where
  pub material : String
  pub vendor : String
  pub type_number : String
  pub width_mm : Option Decimal
  pub length_mm : Option Decimal

pub data ExperimentGroupKind : Type 0 where
  control target standalone : ExperimentGroupKind

pub record GroupAdjustment : Type 0 where
  pub parameter : String
  pub parameter_label : String
  pub control_value : String
  pub target_value : String

pub record ExperimentalGroup : Type 0 where
  pub group_id : String
  pub kind : ExperimentGroupKind
  pub name : String
  pub change_from_control : String
  pub inherits_control : Bool
  pub adjustments : List GroupAdjustment
  pub layers : Option (List DeviceLayer)
  pub deposition_process : Option PerovskiteDepositionProcess
  pub substrate_count : Option ℤ

-- Equality of the literals, by their place in the `Literal[...]` lists.
abbrev pub type_rank : LayerType → ℕ
type_rank niox = 0
type_rank sam = 1
type_rank buried_interface = 2
type_rank sio2_np = 3
type_rank LayerType.perovskite = 4
type_rank passivation = 5
type_rank peai = 6
type_rank edadi = 7
type_rank pcbm = 8
type_rank c60 = 9
type_rank bcp = 10
type_rank sno2 = 11
type_rank ag = 12

abbrev pub role_rank : LayerRole → ℕ
role_rank htl = 0
role_rank buried_interface_modifier = 1
role_rank LayerRole.perovskite = 2
role_rank top_passivation = 3
role_rank etl = 4
role_rank top_electrode = 5

abbrev pub kind_rank : ExperimentGroupKind → ℕ
kind_rank control = 0
kind_rank target = 1
kind_rank standalone = 2

abbrev pub type_eq : LayerType → LayerType → Bool
type_eq a b = type_rank a == type_rank b

abbrev pub role_eq : LayerRole → LayerRole → Bool
role_eq a b = role_rank a == role_rank b

abbrev pub kind_eq : ExperimentGroupKind → ExperimentGroupKind → Bool
kind_eq a b = kind_rank a == kind_rank b
