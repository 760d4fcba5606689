-- ===== src/Runtimes/Registry.antt =====
-- The registry of strategies: backend/app/strategies/registry.py, without the scanners.
use codex_trading_app.Prelude.{
  String, str_eq, Bool, ◌≡◌, Option, none, some, List, [], ◌∷◌, All, Attempt, ok, raised, ◌>>=◌,
  if◌then◌else◌,
}
use codex_trading_app.Prelude.Rows.{find_first}
use codex_trading_app.Redaction.Payload.{Payload, number, Fields, end}
use codex_trading_app.Trades.Executions.Record.{put, given_or}
use codex_trading_app.Trades.Executions.Events.{find_field}
use codex_trading_app.Runtimes.Strategy.{Strategy}

-- The errors that the registry and the manager of engines raise, with what their messages name; the
-- last is of a constructor, with its message.
pub data RuntimeError : Type 0 where
  not_registered : String → RuntimeError
  profile_not_approved : String → String → RuntimeError
  already_running : String → String → RuntimeError
  nothing_named : RuntimeError
  not_active : Option String → Option String → RuntimeError
  no_active_strategy : String → RuntimeError
  constructor_failed : String → RuntimeError

-- `name or default`, of a name that may be missing.
abbrev pub name_or : Option String → String → String
name_or none default = default
name_or (some name) default = if str_eq name "" then default else name

module _ (F : Type 0) where
  pub record StrategyParameterDefinition : Type 0 where
    pub key : String
    pub value : F
    pub constructor_key : Option String

  pub record StrategyParameterProfile : Type 0 where
    pub name : String
    pub parameter_values : Fields F

  -- The fields of `StrategyMetadata` that are read here.
  pub record StrategyMetadata : Type 0 where
    pub name : String
    pub parameters : List StrategyParameterDefinition
    pub parameter_profiles : List StrategyParameterProfile

  pub record ResolvedStrategyProfile : Type 0 where
    pub strategy_name : String
    pub profile_name : String
    pub parameter_values : Fields F
    pub constructor_kwargs : Fields F

-- A factory is a class of strategies: its name and its constructor, which may refuse its arguments.
pub record Factory (F St : Type 0) : Type 0 where
  pub name : String
  pub construct : Fields F → Attempt RuntimeError St

-- What is registered under one name, in `_metadata` and `_strategies`.
pub record Registered (F St : Type 0) : Type 0 where
  pub metadata : StrategyMetadata F
  pub factory : Factory F St

abbrev later_or : {A : Type 0} → Option A → Option A → Option A
later_or none a = a
later_or (some b) a = some b

module _ {F : Type 0} where
  -- `available_profiles.get(name)`: of two profiles of a name the later one.
  unfoldable pub find_profile :
      String → List (StrategyParameterProfile F) → Option (StrategyParameterProfile F)
  find_profile name [] = none
  find_profile name (p ∷ profiles) =
      later_or (find_profile name profiles) (if str_eq p.name name then some p else none)

  abbrev first_profile_name : List (StrategyParameterProfile F) → String
  first_profile_name [] = "default"
  first_profile_name (p ∷ profiles) = p.name

  -- The loop over the definitions: the values of the parameters, and the constructor's arguments.
  unfoldable pub resolve_parameters :
      (String → Payload F → Payload F)
      → List (StrategyParameterDefinition F)
      → Fields F × Fields F
      → Fields F × Fields F
  unfolding put
  resolve_parameters value_of [] so_far = so_far
  resolve_parameters value_of (d ∷ definitions) (values, kwargs) =
      let value = value_of d.key (number d.value) in
      resolve_parameters value_of definitions
        (put d.key value values, put (name_or d.constructor_key d.key) value kwargs)

  abbrev pub value_in : Fields F → String → Payload F → Payload F
  value_in values key default = given_or (find_field key values) default

  abbrev profile_or :
      String
      → String
      → Option (StrategyParameterProfile F)
      → Attempt RuntimeError (StrategyParameterProfile F)
  profile_or target name none = raised (profile_not_approved target name)
  profile_or target name (some p) = ok p

module _ {F St : Type 0} where
  abbrev pub is_named : String → Registered F St → Bool
  is_named name r = str_eq r.metadata.name name

  -- `register`
  unfoldable pub register : Registered F St → List (Registered F St) → List (Registered F St)
  register r [] = r ∷ []
  register r (o ∷ registry) =
      let rest = register r registry in
      if is_named r.metadata.name o then r ∷ registry else o ∷ rest

  abbrev pub registered_or :
      String → Option (Registered F St) → Attempt RuntimeError (Registered F St)
  registered_or name none = raised (not_registered name)
  registered_or name (some r) = ok r

  -- What is registered under a name.
  unfoldable pub registered :
      String → List (Registered F St) → Attempt RuntimeError (Registered F St)
  unfolding find_first
  registered name registry = registered_or name (find_first (is_named name) registry)

  -- `create`
  unfoldable pub create :
      String → Fields F → List (Registered F St) → Attempt RuntimeError (Strategy St)
  unfolding registered
  create name parameters registry = do
    r ← registered name registry
    state ← r.factory.construct parameters
    ok (record { name = r.factory.name; state = state })

  -- `resolve_profile`
  unfoldable pub resolve_profile :
      String
      → Option String
      → List (Registered F St)
      → Attempt RuntimeError (ResolvedStrategyProfile F)
  unfolding registered find_profile resolve_parameters
  resolve_profile name profile_name registry = do
    r ← registered name registry
    let target = name_or profile_name (first_profile_name r.metadata.parameter_profiles)
    profile ← profile_or target name (find_profile target r.metadata.parameter_profiles)
    let resolved =
        resolve_parameters (value_in profile.parameter_values) r.metadata.parameters (end, end)
    ok (record {
      strategy_name = name;
      profile_name = target;
      parameter_values = resolved.0;
      constructor_kwargs = resolved.1;
    })

  -- Every strategy is registered under the name of its class, as the module does it.
  abbrev pub WellNamed : List (Registered F St) → Type 0
  WellNamed registry = All (λ r. r.factory.name ≡ r.metadata.name) registry
