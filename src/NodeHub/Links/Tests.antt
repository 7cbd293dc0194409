-- ===== src/NodeHub/Links/Tests.antt =====
-- Runs of the import on concrete links.
use free_net_hub.Prelude.{◌≡◌, refl, true, none, some, [], ◌∷◌, ok, err, arith}
use free_net_hub.Text.{
  Tables, text, eq_text, elem, lower, upper, strip, lstrip, rstrip, join, split_on, starts_with,
  is_space,
}
use free_net_hub.Text.Utf8.{utf8_length}
use free_net_hub.Json.{
  pos, null, bool, int, str, arr, nil, cons, obj, Dict, end, field, other_error, Python, get,
  get_or, set, to_str,
}
use free_net_hub.NodeHub.JsonNode.{finish, node_id, stable}
use free_net_hub.NodeHub.Links.{
  Url, Web, query_of, value, first_of, b64_text, b64_bytes, name_of, host_port, says_true,
  cut_first,
}
use free_net_hub.NodeHub.Links.Transport.{transport, transport_type}
use free_net_hub.NodeHub.Links.Security.{tls, security_of, tls_fields, add_reality}
use free_net_hub.NodeHub.Links.Schemes.{head, uri_stream, stream_fields, add_user}
use free_net_hub.NodeHub.Links.Uri.{schemes, scheme_of, by_scheme, parse_uri}
use free_net_hub.NodeHub.Links.Uri.Link.{IsLink}
use free_net_hub.NodeHub.Links.Uri.Parsed.{parse_uri-IsLink}
use free_net_hub.NodeHub.Links.Blob.{
  prefix_length, run_length, match_length, find_all, links_in, decode_compact, extract_uris,
  candidates, first_json, singbox_json_nodes, add_node, add_link, add_links, add_nodes, parse_blob,
}
use free_net_hub.NodeHub.Links.Blob.Scan.{Link, link_text, IsWhole, extract_uris_round_trip}
use free_net_hub.NodeHub.Links.Blob.Total.{Returns, singbox_json_nodes-Returns}
use free_net_hub.NodeHub.Links.Blob.Limits.{IsBounded, parse_blob-IsBounded}

abbrev tables : Tables
tables = record { lower_other = λ s. s; upper_other = λ s. s; idna_other = λ s. none }

abbrev python : Python
python = record {
  tables = tables;
  repr = λ v. text "?";
  real_true = λ r. true;
  real_int = λ r. err other_error;
  int_other = λ s. none;
  dumps = λ v. text "{}";
  digest = λ d. text "0123";
  scalar_key = λ v. text "?";
}

-- The parts of the link below, whatever is asked; nothing is JSON, and nothing is base64.
abbrev parts : Url
parts = record {
  username = some (text "pw");
  password = none;
  hostname = some (text "a.net");
  port = ok (some 443);
  query = [];
  fragment = text "Mine";
}

abbrev web : Web
web = record {
  python = python;
  unquote = λ s. s;
  urlsplit = λ s. ok parts;
  parse_qs = λ s. [];
  parse_qsl = λ s. [];
  urlencode = λ rows. [];
  b64decode = λ s. err other_error;
  decode_utf8 = λ bytes. ok bytes;
  decode_utf8_sig = λ bytes. ok bytes;
  loads = λ s. err other_error;
  unescape = λ s. s;
}

abbrev link : Link
link = record { scheme = text "trojan"; body = text "pw@a.net:443" }

abbrev node : Dict
node = field (text "protocol") (str (text "trojan")) (
    field (text "name") (str (text "Mine")) (
      field (text "server") (str (text "a.net")) (
        field (text "port") (int (pos 443)) (
          field (text "tls")
            (obj (
              field (text "enabled") (bool true)
                (field (text "server_name") (str (text "a.net")) end)))
            (field (text "transport") null (field (text "password") (str (text "pw")) end))))))

parsed : parse_uri web (link_text link) ≡ ok (finish python (link_text link) node)
unfolding parse_uri schemes scheme_of by_scheme uri_stream stream_fields add_user head host_port
    query_of name_of tls security_of tls_fields add_reality transport transport_type value first_of
    says_true cut_first eq_text elem lower upper strip lstrip rstrip is_space split_on set finish
    node_id stable
parsed = refl

parse_uri-IsLink_example : IsLink (finish python (link_text link) node)
parse_uri-IsLink_example = parse_uri-IsLink web (link_text link) parsed

abbrev sourced : Dict
sourced = set (text "source") (str (text "paste")) (finish python (link_text link) node)

blob_run :
    parse_blob web (link_text link) (text "paste")
    ≡ ok record { nodes = sourced ∷ []; errors = []; found = 1 }
unfolding parse_blob extract_uris links_in find_all match_length prefix_length run_length
    singbox_json_nodes candidates first_json decode_compact b64_bytes b64_text add_links add_link
    add_nodes add_node utf8_length starts_with is_space rstrip parse_uri schemes scheme_of by_scheme
    uri_stream stream_fields add_user head host_port query_of name_of tls security_of tls_fields
    add_reality transport transport_type value first_of says_true cut_first eq_text elem lower upper
    strip lstrip split_on set finish node_id stable get get_or to_str
blob_run = refl

parse_blob-IsBounded_example :
    IsBounded web (text "paste") record { nodes = sourced ∷ []; errors = []; found = 1 }
parse_blob-IsBounded_example = parse_blob-IsBounded web (link_text link) (text "paste") blob_run

abbrev second : Link
second = record { scheme = text "ss"; body = text "YWJj" }

link-IsWhole : IsWhole link
unfolding elem eq_text is_space rstrip
link-IsWhole = record { known = refl; filled = refl; plain = refl; untrimmed = refl }

second-IsWhole : IsWhole second
unfolding elem eq_text is_space rstrip
second-IsWhole = record { known = refl; filled = refl; plain = refl; untrimmed = refl }

extract_uris_round_trip_example :
    extract_uris web (join 10 (link_text link ∷ link_text second ∷ []))
    ≡ ok (link_text link ∷ link_text second ∷ [])
unfolding utf8_length join
extract_uris_round_trip_example =
    extract_uris_round_trip web link (second ∷ []) (link-IsWhole, (second-IsWhole, tt)) refl
      (omega arith)

-- A configuration with an HTTP proxy, a row that is none, and an SSH node without a credential.
abbrev json_web : Web
json_web = record web {
  loads = λ s. ok (
      arr (
        cons
          (obj (
            field (text "type") (str (text "http")) (
              field (text "server") (str (text "h.net"))
                (field (text "server_port") (int (pos 80)) end))))
          (cons null (
            cons
              (obj (
                field (text "type") (str (text "ssh"))
                  (field (text "server") (str (text "s.net")) end)))
              nil))));
}

singbox_json_nodes-Returns_example : Returns (singbox_json_nodes json_web (text "[...]"))
singbox_json_nodes-Returns_example = singbox_json_nodes-Returns json_web (text "[...]")
