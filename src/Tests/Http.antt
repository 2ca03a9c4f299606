-- ===== src/Tests/Http.antt =====
-- HTTP requests and requests for assets at concrete inputs.
use cppagent.Base.{
  pos, ◌≡◌, refl, true, false, Option, none, some, [], ◌∷◌, Text, Map, codes, inl, arith, lookup,
}
use cppagent.Calls.{DeviceInfo}
use cppagent.Params.{check_and_get_param, no_value32}
use cppagent.Assets.Requests.{handle_assets, Tokenizer, store_with, is_asset_char}
use cppagent.Assets.Requests.Newest.{newest_listed, handle_assets-newest_listed}
use cppagent.Assets.Requests.Lists.{store_with-IsFound, IsFound}
use cppagent.Http.{Request, Server, route, handle_file, file_found, content_type}
use cppagent.Http.Guards.{route-IsPermitted, IsPermitted}
use cppagent.Http.Paths.{device_and_call-ReadsPath, ReadsPath, handle_file-handle_file}
use cppagent.Tests.Requests.{one_asset, one_asset-IsStored, parse_tool}

-- A tokenizer that takes every text for one token.
abbrev one_token : Tokenizer
one_token head body id = (true, id) ∷ []

handle_assets-newest_listed_example :
    handle_assets one_token ((codes "type", codes "Tool") ∷ []) [] one_asset ≡ (
      newest_listed ((codes "type", codes "Tool") ∷ []) one_asset (
          check_and_get_param
            ((codes "type", codes "Tool") ∷ [])
            (codes "count")
            (pos 1)
            (pos 1)
            false
            no_value32
            true),
      one_asset,
    )
handle_assets-newest_listed_example =
    handle_assets-newest_listed one_token ((codes "type", codes "Tool") ∷ []) one_asset
      one_asset-IsStored

abbrev mill : DeviceInfo
mill = record { name = codes "mill"; uuid = codes "u" }

store_with-IsFound_example :
    IsFound one_token []
      (codes "b")
      (record {
        asset_id = codes "b";
        type = codes "Tool";
        timestamp = codes "now";
        device_uuid = mill.uuid;
        removed = false;
        keys = (codes "serial", codes "y") ∷ [];
        content = codes "y";
      })
      (store_with parse_tool
        (codes "now")
        none
        mill
        ((codes "type", codes "Tool") ∷ [])
        (codes "PUT")
        (codes "b")
        (codes "y")
        one_asset)
unfolding lookup is_asset_char
store_with-IsFound_example =
    store_with-IsFound one_token parse_tool (codes "now") none mill
      ((codes "type", codes "Tool") ∷ []) [] (codes "PUT") (codes "b") (codes "y") one_asset
      (record {
        asset_id = [];
        type = codes "Tool";
        timestamp = [];
        device_uuid = [];
        removed = false;
        keys = (codes "serial", codes "y") ∷ [];
        content = codes "y";
      })
      (inl refl) (λ id h. refl) (refl, refl) refl one_asset-IsStored

abbrev writes : Request
writes = record {
  request_type = codes "PUT";
  path = codes "/assets/b?type=Tool";
  foreign_ip = codes "10.0.0.1";
  accept = none;
  queries = (codes "type", codes "Tool") ∷ [];
  body = codes "y";
}

abbrev open_server : Server
open_server = record {
  put_enabled = true;
  put_allowed_hosts = codes "10.0.0.1" ∷ [];
  printers = codes "xml" ∷ [];
  file_map = [];
}

route-IsPermitted_example : IsPermitted writes open_server (route writes open_server)
route-IsPermitted_example = route-IsPermitted writes open_server

device_and_call-ReadsPath_example : ReadsPath (codes "mill") (codes "current") (codes "more")
device_and_call-ReadsPath_example =
    device_and_call-ReadsPath (codes "mill") (codes "current") (codes "more") refl refl refl refl

-- A disk on which every path holds its own name.
abbrev named : Text → Option Text
named path = some path

-- A disk that is gone.
abbrev gone : Text → Option Text
gone path = none

abbrev css : Map Text
css = (codes "css", codes "text/css") ∷ []

abbrev files : Map Text
files = (codes "/a.css", codes "styles/a.css") ∷ []

handle_file-handle_file_example :
    let first = handle_file named 100 css files (codes "/a.css") [] in
    let second = handle_file gone 100 css files (codes "/a.css") first.1 in
    (first.0 ≡ file_found (content_type css (codes "/a.css")) (codes "styles/a.css"))
    × (second ≡ first)
unfolding lookup
handle_file-handle_file_example =
    handle_file-handle_file named gone 100 css files (codes "/a.css") (codes "styles/a.css")
      (codes "styles/a.css") [] refl refl refl (omega arith)
