-- ===== src/Domain/Billing.antt =====
-- backend/src/security_review/domain/billing/models.py: the plan catalog.
use security_review_ai.Prelude.{ℕ, String, Bool, true, false, Option, some, none, List, [], ◌∷◌}

pub data PlanTier : Type 0 where
  free pro enterprise : PlanTier

abbrev pub tier_eq : PlanTier → PlanTier → Bool
tier_eq PlanTier.free PlanTier.free = true
tier_eq PlanTier.pro PlanTier.pro = true
tier_eq PlanTier.enterprise PlanTier.enterprise = true
tier_eq _ _ = false

-- `none` for a limit means that there is none; prices are whole dollars in the catalog
pub record PlanDefinition : Type 0 where
  pub tier : PlanTier
  pub name : String
  pub price_usd_per_month : Option ℕ
  pub max_assessments : Option ℕ
  pub max_scan_jobs : Option ℕ
  pub features : List String

abbrev pub plan_catalog : PlanTier → PlanDefinition
plan_catalog PlanTier.free = record {
  tier = PlanTier.free;
  name = "Free";
  price_usd_per_month = some 0;
  max_assessments = some 3;
  max_scan_jobs = some 20;
  features =
      "All 9 autonomous security agents" ∷ "Up to 3 assessments" ∷ "Up to 20 scan jobs total"
      ∷ "Community support" ∷ [];
}
plan_catalog PlanTier.pro = record {
  tier = PlanTier.pro;
  name = "Pro";
  price_usd_per_month = some 49;
  max_assessments = some 50;
  max_scan_jobs = some 1000;
  features =
      "All 9 autonomous security agents" ∷ "Up to 50 assessments" ∷ "Up to 1,000 scan jobs"
      ∷ "Webhooks + SSE live scan status" ∷ "Priority support" ∷ [];
}
plan_catalog PlanTier.enterprise = record {
  tier = PlanTier.enterprise;
  name = "Enterprise";
  price_usd_per_month = none;
  max_assessments = none;
  max_scan_jobs = none;
  features =
      "Unlimited assessments and scan jobs" ∷ "SSO/SAML, audit logs, custom SLAs"
      ∷ "Dedicated support" ∷ [];
}

pub record PlanResponse : Type 0 where
  pub tier : PlanTier
  pub name : String
  pub price_usd_per_month : Option ℕ
  pub max_assessments : Option ℕ
  pub max_scan_jobs : Option ℕ
  pub features : List String
  pub checkout_url : Option String

pub record UsageResponse : Type 0 where
  pub plan : PlanResponse
  pub assessments_used : ℕ
  pub scan_jobs_used : ℕ

abbrev pub plan_to_response : PlanDefinition → PlanResponse
plan_to_response d = record {
  tier = d.tier;
  name = d.name;
  price_usd_per_month = d.price_usd_per_month;
  max_assessments = d.max_assessments;
  max_scan_jobs = d.max_scan_jobs;
  features = d.features;
  checkout_url = none;
}
