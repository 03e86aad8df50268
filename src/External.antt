-- ===== src/External.antt =====
-- The functions of other packages that the program calls: digests (`hex::encode(Sha256::digest(…))`
-- and its base64 form), base64 (URL-safe, without padding), the reader and the two printers of
-- `serde_json`, and `Url::parse` with `append_pair`. Nothing is assumed of them here.
use open_ai_lb.Prelude.{ℕ, String, Option, List}
use open_ai_lb.Json.{Value}

pub record External : Type 0 where
  pub sha256_hex : String → String
  pub sha256_base64 : String → String
  pub base64_decode : List ℕ → Option (List ℕ)
  pub url_with_query : String → List (String × String) → Option String
  pub from_slice : List ℕ → Option Value
  pub to_string : Value → String
  pub to_vec : Value → List ℕ
