-- ===== src/Scanners/Factory.antt =====
-- agent_factory.py and the interface `Agent` of core/agent.py.
use security_review_ai.Prelude.{String, Bool, Option, List}
use security_review_ai.Domain.Assessment.{AgentType, Finding}

-- the subclasses of `Agent`
pub data AgentClass : Type 0 where
  white_box_agent black_box_agent dependency_security_agent api_security_agent : AgentClass
  cloud_security_agent trivy_agent red_team_agent blue_team_agent : AgentClass
  secret_detection_agent auto_remediation_agent : AgentClass

unfoldable pub create : AgentType → AgentClass
create AgentType.white_box = white_box_agent
create AgentType.black_box = black_box_agent
create AgentType.dependency_security = dependency_security_agent
create AgentType.api_security = api_security_agent
create AgentType.cloud_security = cloud_security_agent
create AgentType.trivy = trivy_agent
create AgentType.red_team = red_team_agent
create AgentType.blue_team = blue_team_agent
create AgentType.secret_detection = secret_detection_agent
create AgentType.auto_remediation = auto_remediation_agent

-- what `execute` does: a list of findings, or an exception with its text
pub data AgentOutcome : Type 0 where
  found : List Finding → AgentOutcome
  raised : String → AgentOutcome

-- `agent.execute(target, authorized=...)` for each class
abbrev pub AgentRun : Type 0
AgentRun = AgentClass → Option String → Bool → AgentOutcome
