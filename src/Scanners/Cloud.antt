-- ===== src/Scanners/Cloud.antt =====
-- cloud_security_agent.py
use security_review_ai.Prelude.{
  String, str_eq, Bool, true, false, ◌&&◌, ◌||◌, not, Option, none, some, List, [], ◌++◌, flat_map,
  lower, contains,
}
use security_review_ai.Domain.Assessment.{FindingSeverity}
use security_review_ai.Scanners.Report.{
  Draft, draft, Files, report_if, or_else, for_target, matches, check_file, each_file,
}

-- `a | b` of two generators raises TypeError
abbrev pub union_of_generators : List String → List String → Option (List String)
union_of_generators a b = none

module _ (fs : Files) where
  unfoldable pub check_terraform_configs : String → List Draft
  check_terraform_configs = each_file fs "*.tf" (λ path content.
      report_if (matches fs "publicly_accessible\\s*=\\s*true" true content) (
        draft "Publicly accessible database detected in Terraform" FindingSeverity.high
          "Database resource is configured as publicly accessible." path
          "Set publicly_accessible = false and use security groups to restrict access.")
      ++ report_if (matches fs "ingress.*0\\.0\\.0\\.0/0|0\\.0\\.0\\.0.*ingress" false content) (
          draft "Overly permissive ingress rule in Terraform" FindingSeverity.high
            "Security group allows traffic from any IP address (0.0.0.0/0)." path
            "Restrict ingress to specific IP ranges or security groups."))

  abbrev is_passed_over : String → Bool
  is_passed_over path =
      not (contains (lower (fs.name path)) "cloudformation")
      && not (str_eq (fs.suffix path) ".yaml" || str_eq (fs.suffix path) ".yml")

  abbrev check_template : String → List Draft
  check_template path = elim (is_passed_over path) [
    | true ↦ []
    | false ↦
        check_file fs
          (λ path content.
            report_if (matches fs "PublicRead|PublicReadWrite|AuthenticatedRead" false content) (
              draft "Potentially public S3 bucket in CloudFormation" FindingSeverity.critical
                "S3 bucket may have public ACL configured." path
                "Remove public ACLs and use bucket policies with least privilege."))
          path
  ]

  -- `except Exception: pass` around the loop over the templates
  abbrev check_templates : Option (List String) → List Draft
  check_templates none = []
  check_templates (some paths) = flat_map check_template paths

  unfoldable pub check_cloudformation_configs : String → List Draft
  check_cloudformation_configs target = elim (fs.is_dir target) [
    | true ↦
        check_templates (union_of_generators (fs.rglob "*.yaml" target) (fs.rglob "*.json" target))
    | false ↦ []
  ]

  unfoldable pub check_docker_configs : String → List Draft
  check_docker_configs = each_file fs "Dockerfile*" (λ path content.
      report_if (not (contains content "USER")) (
        draft "Docker container runs as root" FindingSeverity.medium
          "Dockerfile does not specify non-root USER." path
          "Add 'USER <non-root-user>' to Dockerfile.")
      ++ report_if (matches fs "FROM.*:latest" false content) (
          draft "Docker image uses :latest tag" FindingSeverity.medium
            "Using :latest tag can lead to unpredictable base images." path
            "Specify explicit version tags for base images."))

  unfoldable pub check_k8s_configs : String → List Draft
  check_k8s_configs = each_file fs "*.yaml" (λ path content.
      report_if (matches fs "privileged:\\s*true" true content) (
        draft "Privileged Kubernetes container detected" FindingSeverity.high
          "Container is running in privileged mode." path
          "Remove privileged flag unless absolutely necessary.")
      ++ report_if (not (matches fs "limits:|requests:" false content)) (
          draft "Missing Kubernetes resource limits" FindingSeverity.medium
            "Pod lacks CPU/memory resource limits and requests." path
            "Define resources.limits and resources.requests in pod spec."))

  unfoldable pub execute_on : String → List Draft
  execute_on target =
      or_else
        (draft "Cloud security assessment completed" FindingSeverity.low
          "No obvious cloud security misconfigurations detected in preliminary scan." target
          "Continue using cloud security scanning tools and follow cloud security best practices.")
        (check_terraform_configs target
          ++ check_cloudformation_configs target
          ++ check_docker_configs target
          ++ check_k8s_configs target)

  -- `CloudSecurityAgent.execute`
  unfoldable pub execute : Option String → List Draft
  execute = for_target execute_on
