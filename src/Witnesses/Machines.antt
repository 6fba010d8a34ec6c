-- ===== src/Witnesses/Machines.antt =====
-- A machine, the services of a run and its first context, for the witnesses of the handlers.
use agent_analysis.Prelude.{true, false, [], ◌∷◌, Option, none, some, pos}
use agent_analysis.Schemas.Json.{int, text}
use agent_analysis.Schemas.Chain.{HandlerResult}
use agent_analysis.Chains.Context.{ChainContext}
use agent_analysis.Chains.Executor.{start}
use agent_analysis.Storage.ArtifactStore.{ArtifactStore}
use agent_analysis.Runners.Sandbox.{Completion}
use agent_analysis.Llm.Router.{answered, failed, Providers}
use agent_analysis.Agents.Parsing.{Parser}
use agent_analysis.Handlers.Host.{Host, Reading, Loaded}
use agent_analysis.Handlers.Base.{skip_result}
use agent_analysis.Handlers.Commands.{command_of}
use agent_analysis.Handlers.Analysis.Analyst.{AnalystServices}
use agent_analysis.Handlers.Registered.{Services}
use agent_analysis.Witnesses.Samples.{os, coder, review, request}

-- A machine on which a command fails, and a file holds one line.
abbrev pub host : Host
host = record {
  shell = λ tree line. (Completion.completed (pos 1) "" "failed", tree);
  git = λ tree before args. none;
  repr = λ v. "{}";
  as_int = λ v. elim v [ int n ↦ some n | _ ↦ none ];
  parse_design = λ v. some review;
  read = λ tree path. Reading.content "token = 1";
  link_holds = λ tree doc link. true;
  search = λ pattern line. false;
  findall = λ pattern source. [];
  load_yaml = λ source. Loaded.loaded;
}

-- Adapters that all fail, with no limiter and a registry in which each model is its own fallback.
abbrev pub failing : Providers
failing = record {
  adapter = λ provider. some (λ n spec prompt. failed "no service");
  allows = λ n id. true;
  dump = λ call. "{}";
}

-- An adapter that answers.
abbrev pub answering : Providers
answering = record failing {
  adapter = λ provider.
      some (λ n spec prompt. answered (record { text = "ok"; tokens_in = 1; tokens_out = 1 }));
}

abbrev pub analyst_services : AnalystServices
analyst_services = record {
  specs = coder ∷ [];
  providers = answering;
  tools = none;
  repo_path = "/srv/app";
  dump_line = λ v. "{}";
}

abbrev pub parser : Parser
parser = record {
  loads = λ raw. none;
  validate = λ fields. none;
  dump = λ parsed. text parsed.summary;
  dump_text = λ parsed. parsed.summary;
}

abbrev pub services : Services
services = record { host = host; agents = analyst_services; parser = parser }

abbrev pub empty_store : ArtifactStore
empty_store = record { root = "/art"; attempt_id = none; files = [] }

-- The context of a run that has just started.
abbrev pub context : ChainContext
context = (start os request empty_store none none none).context

abbrev pub no_result : HandlerResult × ChainContext
no_result = (skip_result (command_of "") "", context)

abbrev pub or_else {ℓ} : {A : Type ℓ} → A → Option A → A
or_else a none = a
or_else a (some b) = b
