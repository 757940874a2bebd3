-- ===== src/Overlord/Posts.antt =====
-- What a batch of files has the webhook told.
use azure_s_sftp.Base.{
  Bool, List, [], ◌∷◌, ◌++◌, Option, none, some, Text, codes, ◌==◌, if◌then◌else◌, Result, ok, err,
}
use azure_s_sftp.Clamav.{ClamdResponse}
use azure_s_sftp.Config.Types.{ConfigService, virus_found_webhook}
use azure_s_sftp.Config.Load.{get_web_hook}
use azure_s_sftp.Webhook.{Post}
use azure_s_sftp.Overlord.Scans.{Services}
use azure_s_sftp.Overlord.Pipeline.{Pipeline}
use azure_s_sftp.Overlord.Batches.{staged}

module _ (sv : Services) (cs : ConfigService) where
  -- The message of clamd's answer, if it found a virus.
  abbrev pub found : Result ClamdResponse → Option Text
  found (err e) = none
  found (ok r) = if r.status == codes "FOUND" then some r.raw else none

  -- The request about the file of `rest`, if there is a message.
  abbrev pub reported : Text → Option Text → List Post
  reported rest none = []
  reported rest (some message) =
      record {
        url = get_web_hook cs virus_found_webhook;
        body = record {
          username = [];
          scan_message = message;
          file_path = cs.config.quarantine_path ++ rest;
        };
      }
      ∷ []

  abbrev pub reports : List Text → List Post
  reports [] = []
  reports (rest ∷ rests) = reported rest (found (sv.clamd (staged cs rest))) ++ reports rests

  -- The requests about a batch.
  abbrev pub expected : List Text → List Post
  expected rests =
      if cs.config.enable_virus_scan
      then if sv.url_parses (get_web_hook cs virus_found_webhook) then reports rests else []
      else []

  abbrev address_parses : Bool
  address_parses = sv.url_parses (get_web_hook cs virus_found_webhook)

  -- The request about one file.
  abbrev own : Text → List Post
  own rest =
      if cs.config.enable_virus_scan
      then if address_parses then reported rest (found (sv.clamd (staged cs rest))) else []
      else []
