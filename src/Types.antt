-- ===== src/Types.antt =====
-- FrontEnd/src/types/index.ts: the data that the server sends and the components share.
-- Ids and vote counts are natural numbers; texts that no code looks into are opaque strings.
use voting_app.Prelude.{ℕ, String, Option, List, Bool, Text}

pub record CustomDomain : Type 0 where
  pub id : ℕ
  pub domain : String
  pub created_at : String

pub record Candidate : Type 0 where
  pub id : ℕ
  pub name : String
  pub description : Text
  pub image_path : Text
  pub total_votes : ℕ
  pub created_at : String

-- `ends_at` is the time in milliseconds that `new Date(ends_at).getTime()` reads from the text.
pub record WsVotingStatus : Type 0 where
  pub effectively_open : Bool
  pub ends_at : Option ℕ

pub record WsMessage : Type 0 where
  pub candidates : Option (List Candidate)
  pub voting_status : Option (Option WsVotingStatus)

pub data WsStatus : Type 0 where
  connecting connected disconnected : WsStatus

pub data ToastType : Type 0 where
  success error warning info : ToastType

pub record Toast : Type 0 where
  pub id : ℕ
  pub message : String
  pub type : ToastType
