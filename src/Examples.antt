-- ===== src/Examples.antt =====
-- Tests of the smaller modules, and their theorems at concrete inputs.
use voting_app.Prelude.{none, []}
use voting_app.Storage.{empty_storage}
use voting_app.Theme.{Document}
use voting_app.Types.{Candidate}

abbrev dark_page : Document
dark_page = record { data_theme = none; storage = empty_storage }

abbrev ann : Candidate
ann = record {
  id = 7;
  name = "Ann";
  description = [];
  image_path = [];
  total_votes = 3;
  created_at = "";
}
