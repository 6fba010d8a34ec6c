-- ===== src/Chains/Registry.antt =====
-- The registered chains (backend/app/chains/registry.py).
pub mod Routing
use agent_analysis.Prelude.{String, ◌==◌, List, [], ◌∷◌, Option, none, some, if◌then◌else◌}
use agent_analysis.Schemas.Constants.{RunType}
use agent_analysis.Schemas.Chain.{TaskType, task_type_value}

pub record ChainDefinition : Type 0 where
  pub chain_id : String
  pub mode : RunType
  pub handler_names : List String

abbrev pub ai_readiness_audit_chain : ChainDefinition
ai_readiness_audit_chain = record {
  chain_id = "ai_readiness_audit_chain";
  mode = RunType.read_only_analysis;
  handler_names =
      "ManifestValidationHandler" ∷ "ScrumMappingHandler" ∷ "DefinitionOfDoneLockHandler"
      ∷ "ScopeValidationHandler" ∷ "RepoInventoryHandler" ∷ "CommandDiscoveryHandler"
      ∷ "CIInventoryHandler" ∷ "DependencyInventoryHandler" ∷ "ReadOnlyComplianceHandler"
      ∷ "AnalysisAgentInvocationHandler" ∷ "AgentOutputQuarantineHandler"
      ∷ "StructuredOutputParserHandler" ∷ "AIReadinessScoringHandler"
      ∷ "StrategicProgrammingAssessmentHandler" ∷ "BacklogFindingGeneratorHandler"
      ∷ "EvidenceGateHandler" ∷ "AnalysisVerifierHandler" ∷ "EvaluatorHandler"
      ∷ "MemoryUpdateHandler" ∷ "BacklogUpdateHandler" ∷ "StopOrLoopHandler" ∷ [];
}

abbrev pub implementation_chain : ChainDefinition
implementation_chain = record {
  chain_id = "implementation_chain";
  mode = RunType.implementation;
  handler_names =
      "ManifestValidationHandler" ∷ "ScrumMappingHandler" ∷ "DefinitionOfDoneLockHandler"
      ∷ "ScopeValidationHandler" ∷ "StrategicDesignGateHandler" ∷ "AgentInvocationHandler"
      ∷ "AgentOutputQuarantineHandler" ∷ "DiffCaptureHandler" ∷ "TestRunnerHandler"
      ∷ "StaticCheckHandler" ∷ "ScopeDiffHandler" ∷ "EvidenceGateHandler"
      ∷ "ImplementationVerifierHandler" ∷ "EvaluatorHandler" ∷ "MemoryUpdateHandler"
      ∷ "PRGateHandler" ∷ "StopOrLoopHandler" ∷ [];
}

abbrev pub bug_fix_chain : ChainDefinition
bug_fix_chain = record {
  chain_id = "bug_fix_chain";
  mode = RunType.implementation;
  handler_names =
      "ManifestValidationHandler" ∷ "ScrumMappingHandler" ∷ "DefinitionOfDoneLockHandler"
      ∷ "ScopeValidationHandler" ∷ "FailureReproductionHandler" ∷ "StrategicDesignGateHandler"
      ∷ "AgentInvocationHandler" ∷ "AgentOutputQuarantineHandler" ∷ "DiffCaptureHandler"
      ∷ "TestRunnerHandler" ∷ "StaticCheckHandler" ∷ "ScopeDiffHandler" ∷ "EvidenceGateHandler"
      ∷ "ImplementationVerifierHandler" ∷ "EvaluatorHandler" ∷ "MemoryUpdateHandler"
      ∷ "PRGateHandler" ∷ "StopOrLoopHandler" ∷ [];
}

abbrev pub security_review_chain : ChainDefinition
security_review_chain = record {
  chain_id = "security_review_chain";
  mode = RunType.implementation;
  handler_names =
      "ManifestValidationHandler" ∷ "ScrumMappingHandler" ∷ "ScopeValidationHandler"
      ∷ "SecurityReviewTestsNotApplicableHandler" ∷ "DiffCaptureHandler" ∷ "SecretScanHandler"
      ∷ "DependencyVulnerabilityHandler" ∷ "AuthChangeRiskHandler" ∷ "InputValidationRiskHandler"
      ∷ "EvidenceGateHandler" ∷ "SecurityVerifierHandler" ∷ "EvaluatorHandler" ∷ "PRGateHandler"
      ∷ "StopOrLoopHandler" ∷ [];
}

abbrev pub dependency_update_chain : ChainDefinition
dependency_update_chain = record {
  chain_id = "dependency_update_chain";
  mode = RunType.implementation;
  handler_names =
      "ManifestValidationHandler" ∷ "ScrumMappingHandler" ∷ "DefinitionOfDoneLockHandler"
      ∷ "DependencyInventoryHandler" ∷ "DependencyRiskHandler" ∷ "LicenseCheckHandler"
      ∷ "StrategicDesignGateHandler" ∷ "AgentInvocationHandler" ∷ "AgentOutputQuarantineHandler"
      ∷ "DiffCaptureHandler" ∷ "LockfileValidationHandler" ∷ "TestRunnerHandler"
      ∷ "StaticCheckHandler" ∷ "BuildHandler" ∷ "EvidenceGateHandler"
      ∷ "ImplementationVerifierHandler" ∷ "EvaluatorHandler" ∷ "PRGateHandler" ∷ "StopOrLoopHandler"
      ∷ [];
}

abbrev pub documentation_update_chain : ChainDefinition
documentation_update_chain = record {
  chain_id = "documentation_update_chain";
  mode = RunType.implementation;
  handler_names =
      "ManifestValidationHandler" ∷ "ScrumMappingHandler" ∷ "DocumentationGapHandler"
      ∷ "StrategicDesignGateHandler" ∷ "AgentInvocationHandler" ∷ "AgentOutputQuarantineHandler"
      ∷ "DiffCaptureHandler" ∷ "LinkCheckHandler" ∷ "DocumentationVerifierHandler"
      ∷ "EvidenceGateHandler" ∷ "EvaluatorHandler" ∷ "PRGateHandler" ∷ "StopOrLoopHandler" ∷ [];
}

abbrev pub ci_failure_repair_chain : ChainDefinition
ci_failure_repair_chain = record {
  chain_id = "ci_failure_repair_chain";
  mode = RunType.implementation;
  handler_names =
      "ManifestValidationHandler" ∷ "ScrumMappingHandler" ∷ "CIFailureLogParserHandler"
      ∷ "FailureClassificationHandler" ∷ "ReproductionHandler" ∷ "StrategicDesignGateHandler"
      ∷ "AgentInvocationHandler" ∷ "AgentOutputQuarantineHandler" ∷ "DiffCaptureHandler"
      ∷ "TestRunnerHandler" ∷ "CIConfigValidationHandler" ∷ "EvidenceGateHandler"
      ∷ "ImplementationVerifierHandler" ∷ "EvaluatorHandler" ∷ "PRGateHandler" ∷ "StopOrLoopHandler"
      ∷ [];
}

-- `CHAIN_DEFINITIONS`, in its order.
abbrev pub chain_definitions : List ChainDefinition
chain_definitions =
    ai_readiness_audit_chain ∷ implementation_chain ∷ bug_fix_chain ∷ security_review_chain
    ∷ dependency_update_chain ∷ documentation_update_chain ∷ ci_failure_repair_chain ∷ []

-- `TASK_TYPE_TO_CHAIN`
abbrev pub task_type_to_chain : List (String × String)
task_type_to_chain =
    (task_type_value TaskType.ai_readiness_audit, "ai_readiness_audit_chain")
    ∷ (task_type_value TaskType.implementation, "implementation_chain")
    ∷ (task_type_value TaskType.bug_fix, "bug_fix_chain")
    ∷ (task_type_value TaskType.security_review, "security_review_chain")
    ∷ (task_type_value TaskType.dependency_update, "dependency_update_chain")
    ∷ (task_type_value TaskType.documentation_update, "documentation_update_chain")
    ∷ (task_type_value TaskType.ci_failure_repair, "ci_failure_repair_chain")
    ∷ (task_type_value TaskType.refactor, "implementation_chain")
    ∷ (task_type_value TaskType.test_coverage_expansion, "implementation_chain")
    ∷ []

-- TASK_TYPE_TO_CHAIN.get(task_type)
unfoldable pub chain_id_of : String → List (String × String) → Option String
chain_id_of task_type [] = none
chain_id_of task_type ((t, c) ∷ rest) =
    if t == task_type then some c else chain_id_of task_type rest

-- CHAIN_DEFINITIONS.get(chain_id)
unfoldable pub find_chain : String → List ChainDefinition → Option ChainDefinition
find_chain chain_id [] = none
find_chain chain_id (d ∷ ds) = if d.chain_id == chain_id then some d else find_chain chain_id ds

unfoldable pub resolve_chain : String → Option ChainDefinition
unfolding chain_id_of find_chain task_type_value
resolve_chain task_type = elim (chain_id_of task_type task_type_to_chain) [
  | none ↦ none
  | some chain_id ↦ find_chain chain_id chain_definitions
]
