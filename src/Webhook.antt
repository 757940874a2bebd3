-- ===== src/Webhook.antt =====
-- src/webhook/webhook.go: the call that reports a virus. `net/url`'s parser is a parameter: whether
-- it takes a text. What the receiver answers is only logged.
use azure_s_sftp.Base.{Bool, true, false, Option, none, some, Text, if◌then◌else◌}

pub record VirusDetectedWebhookData : Type 0 where
  pub username : Text
  pub scan_message : Text
  pub file_path : Text

-- A request that is posted.
pub record Post : Type 0 where
  pub url : Text
  pub body : VirusDetectedWebhookData

module _ (url_parses : Text → Bool) where
  unfoldable pub is_valid_url : Text → Bool
  is_valid_url urlp = if url_parses urlp then true else false

  unfoldable pub call_virus_found_webhook : Text → VirusDetectedWebhookData → Option Post
  unfolding is_valid_url
  call_virus_found_webhook url body =
      if is_valid_url url then some (record { url = url; body = body }) else none
