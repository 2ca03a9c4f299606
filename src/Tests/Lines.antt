-- ===== src/Tests/Lines.antt =====
-- The lines of an adapter at concrete inputs.
use cppagent.Base.{ℕ, ◌≡◌, refl, true, false, none, some, [], ◌∷◌, codes}
use cppagent.Adapter.Process.{Surroundings, Adapter, adds_asset}
use cppagent.Adapter.Process.Gather.{process_lines, process_lines-document}

-- No devices, and a time that is given.
abbrev pub surroundings : Surroundings
surroundings = record {
  Hidden = ℕ;
  Offset = ℕ;
  get_device = λ name. none;
  get_item = λ device key. none;
  extract_time = λ text h. (text, 0, h);
  is_filtered = λ item value offset h. (false, h);
}

abbrev pub gathering : Adapter ℕ
gathering = record {
  hidden = 0;
  device_name = codes "m";
  device = none;
  dup_check = true;
  upcase_value = false;
  log_once = [];
  last_values = [];
  gathering_asset = true;
  terminator = codes "--multiline--E";
  body = [];
  time = codes "t";
  asset_type = codes "Tool";
  asset_id = codes "a";
  asset_device = none;
}

process_lines-document_example :
    process_lines surroundings
      (codes "<Tool>" ∷ codes "t|x|1" ∷ codes "--multiline--E" ∷ [])
      gathering
    ≡ some (
      record gathering { gathering_asset = false; body = codes "<Tool>\nt|x|1\n" },
      adds_asset none (codes "a") (codes "<Tool>\nt|x|1\n") (codes "Tool") (codes "t") ∷ [],
    )
process_lines-document_example =
    process_lines-document surroundings gathering (codes "<Tool>" ∷ codes "t|x|1" ∷ []) refl
      (refl, (refl, tt))
