-- ===== src/Cve/Feeds.antt =====
-- What NVD, KEV and EPSS deliver in bulk, by src/cve/maintenance-adapters.ts and src/cve/enrichment.ts,
-- and the JSON values in which src/cve/maintenance.ts keeps it.
use ai_event_intelligence_ag.Base.{
  ℕ, ◌≡◌, refl, ◌⊎◌, inl, inr, String, Bool, Option, none, some, List,
}
use ai_event_intelligence_ag.StableJson.{Json, null, bool, num, str, obj, Fields, end, field}

-- A call that returns or throws.
pub data Fetched {ℓ} (A : Type ℓ) : Type ℓ where
  fetched : A → Fetched A
  thrown : String → Fetched A

pub record Cvss : Type 0 where
  pub base : ℕ  -- in units of 10⁻⁹
  pub vector : String

pub record NvdNormalized : Type 0 where
  pub description : Option String
  pub cvss_v3 : Option Cvss
  pub cvss_v2 : Option Cvss
  pub published_at : Option String
  pub last_modified_at : Option String

pub record KevNormalized : Type 0 where
  pub listed : Bool
  pub date_added : Option String
  pub due_date : Option String
  pub short_description : Option String

pub record EpssNormalized : Type 0 where
  pub score : Option ℕ  -- in units of 10⁻⁹
  pub percentile : Option ℕ
  pub date : Option String

pub record NvdRefreshRecord : Type 0 where
  pub cve_id : String
  pub normalized : NvdNormalized
  pub last_modified_at : Option String

-- `MaintenanceAdapterSet`; a catalogue lists the entries of its map in order.
pub record MaintenanceAdapters : Type 0 where
  pub fetch_modified : String → String → Fetched (List NvdRefreshRecord)
  pub fetch_all : Fetched (List (String × KevNormalized))
  pub fetch_daily : Fetched (List (String × EpssNormalized))
  pub to_upper_case : String → String

abbrev pub json_text : Option String → Json
json_text none = null
json_text (some s) = str s

abbrev pub json_number : Option ℕ → Json
json_number none = null
json_number (some n) = num n

abbrev pub json_cvss : Option Cvss → Json
json_cvss none = null
json_cvss (some c) = obj (field "base" (num c.base) (field "vector" (str c.vector) end))

-- `{ source, value: normalized }`
abbrev pub wrapped : String → Fields → Json
wrapped source value = obj (field "source" (str source) (field "value" (obj value) end))

abbrev pub nvd_json : NvdNormalized → Json
nvd_json v = wrapped "nvd" (
    field "description" (json_text v.description) (
      field "cvssV3" (json_cvss v.cvss_v3) (
        field "cvssV2" (json_cvss v.cvss_v2) (
          field "publishedAt" (json_text v.published_at)
            (field "lastModifiedAt" (json_text v.last_modified_at) end)))))

abbrev pub kev_json : KevNormalized → Json
kev_json v = wrapped "kev" (
    field "listed" (bool v.listed) (
      field "dateAdded" (json_text v.date_added) (
        field "dueDate" (json_text v.due_date)
          (field "shortDescription" (json_text v.short_description) end))))

abbrev pub epss_json : EpssNormalized → Json
epss_json v = wrapped "epss" (
    field "score" (json_number v.score)
      (field "percentile" (json_number v.percentile) (field "date" (json_text v.date) end)))

pub Fetched-cases {ℓ} :
    {A : Type ℓ} (f : Fetched A) → ((a : A) × (f ≡ fetched a)) ⊎ ((m : String) × (f ≡ thrown m))
Fetched-cases (fetched a) = inl (a, refl)
Fetched-cases (thrown m) = inr (m, refl)
