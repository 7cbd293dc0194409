-- ===== src/NodeHub/Tests.antt =====
-- Runs of the node hub on concrete nodes.
use free_net_hub.Prelude.{err, ◌≡◌, refl, ◌≤◌, true, false, none, [], ◌∷◌, map, length, ok}
use free_net_hub.Text.{Text, Tables, text, eq_text, elem, lower, upper, strip}
use free_net_hub.Text.Affix.{Distinct}
use free_net_hub.Json.{
  other_error, pos, Json, null, bool, int, str, arr, obj, nil, Dict, end, field, Python, get,
  get_or, set, truthy, to_str, or_else, to_int, has_key, to_list, to_key, numeral,
}
use free_net_hub.Json.Keys.{only}
use free_net_hub.NodeHub.Values.{
  need, text_or, int_or, copy_texts, copy_given, copy_true, nonblank, take_items,
}
use free_net_hub.NodeHub.JsonProtocols.{json_tls, json_anytls}
use free_net_hub.NodeHub.JsonNode.{
  forbidden, finish, base_node, add_tls, by_type, read_node, singbox_json_node,
}
use free_net_hub.NodeHub.JsonNode.Accepted.{IsNode, no_detour, singbox_json_node-IsNode}
use free_net_hub.NodeHub.Outbound.{out_type, out_base, out_ssh, out_fields, outbound}
use free_net_hub.NodeHub.Outbound.Clean.{harmless, values, deep, clean}
use free_net_hub.NodeHub.Outbound.Harmless.{outbound-harmless, outbound-clean}
use free_net_hub.NodeHub.Merge.{
  eq_key, find, put, index, keep_marks, keep_tests, merge_one, merge_all, merge, max_nodes,
}
use free_net_hub.NodeHub.Merge.Marks.{IsStep, merge_one-IsStep}
use free_net_hub.NodeHub.Merge.Distinct.{id_text, merge-Distinct}

abbrev tables : Tables
tables = record { lower_other = λ s. s; upper_other = λ s. s; idna_other = λ s. none }

abbrev text_of : Json → Text
text_of (str s) = s
text_of _ = []

-- An interpreter without fractional numbers, whose digest is the server of a node.
abbrev python : Python
python = record {
  tables = tables;
  repr = λ v. text "?";
  real_true = λ r. true;
  real_int = λ r. err other_error;
  int_other = λ s. none;
  dumps = λ v. text "{}";
  digest = λ d. text_of (get (text "server") d);
  scalar_key = λ v. text "?";
}

-- An SSH node that also names a key file and a detour.
abbrev ssh_node : Dict
ssh_node = field (text "protocol") (str (text "ssh")) (
    field (text "server") (str (text "a.net")) (
      field (text "port") (int (pos 22)) (
        field (text "password") (str (text "secret")) (
          field (text "private_key_path") (str (text "/etc/key"))
            (field (text "detour") (str (text "other")) end)))))

abbrev ssh_outbound : Dict
ssh_outbound = field (text "type") (str (text "ssh")) (
    field (text "tag") (str (text "provider")) (
      field (text "server") (str (text "a.net")) (
        field (text "server_port") (int (pos 22)) (
          field (text "user") (str (text "root"))
            (field (text "password") (str (text "secret")) end)))))

ssh_run : outbound python ssh_node ≡ ok ssh_outbound
unfolding outbound need out_base out_type out_fields out_ssh copy_true copy_given or_else truthy
    has_key get get_or set eq_text to_int
ssh_run = refl

outbound-harmless_example : only harmless ssh_outbound ≡ true
outbound-harmless_example = outbound-harmless python ssh_node ssh_run

ssh_node-deep : values deep ssh_node ≡ true
unfolding deep
ssh_node-deep = refl

outbound-clean_example : clean deep ssh_outbound ≡ true
outbound-clean_example = outbound-clean python ssh_node ssh_node-deep ssh_run

-- An AnyTLS outbound.
abbrev any_outbound : Dict
any_outbound = field (text "type") (str (text "AnyTLS")) (
    field (text "server") (str (text " b.net ")) (
      field (text "server_port") (str (text "443")) (
        field (text "password") (str (text "pw"))
          (field (text "tls") (obj (field (text "insecure") (bool true) end)) end))))

abbrev any_node : Dict
any_node = field (text "protocol") (str (text "anytls")) (
    field (text "name") (str (text "ANYTLS b.net")) (
      field (text "server") (str (text "b.net")) (
        field (text "port") (int (pos 443)) (
          field (text "transport") null (
            field (text "tls")
              (obj (
                field (text "enabled") (bool true) (
                  field (text "server_name") (str (text "b.net"))
                    (field (text "insecure") (bool true) end))))
              (field (text "password") (str (text "pw")) end))))))

any_made : singbox_json_node python (obj any_outbound) ≡ ok (finish python (text "{}") any_node)
unfolding singbox_json_node forbidden read_node base_node add_tls by_type json_tls json_anytls
    text_or int_or copy_texts nonblank take_items truthy get get_or set eq_text elem lower upper
    strip to_str or_else to_int numeral finish
any_made = refl

singbox_json_node-IsNode_example :
    IsNode (finish python (text "{}") any_node) × (no_detour python any_outbound ≡ true)
singbox_json_node-IsNode_example =
    singbox_json_node-IsNode python any_outbound (finish python (text "{}") any_node) any_made

-- A stored node with a person's marks, and the same node as it is read again.
abbrev stored : Dict
stored =
    field (text "id") (str (text "x1"))
      (field (text "favorite") (bool true) (field (text "note") (str (text "good")) end))

abbrev fresh : Dict
fresh =
    field (text "id") (str (text "x1"))
      (field (text "favorite") (bool false) (field (text "server") (str (text "new.net")) end))

abbrev merged : Dict
merged = field (text "id") (str (text "x1")) (
    field (text "favorite") (bool true) (
      field (text "server") (str (text "new.net")) (
        field (text "pinned") (bool false) (
          field (text "rating") (int (pos 0))
            (field (text "tags") (arr nil) (field (text "note") (str (text "good")) end))))))

merge_run :
    merge_one python fresh (index python (stored ∷ []) []) ≡ ok (index python (merged ∷ []) [])
unfolding merge_one index put find eq_key keep_marks keep_tests need to_key truthy get get_or set
    eq_text or_else to_int to_str to_list take_items has_key
merge_run = refl

merge_one-IsStep_example :
    IsStep python fresh (index python (stored ∷ []) []) (index python (merged ∷ []) [])
merge_one-IsStep_example =
    merge_one-IsStep python fresh (index python (stored ∷ []) []) (index python (merged ∷ []) [])
      merge_run

merge_all_run : merge python (stored ∷ []) (fresh ∷ fresh ∷ []) ≡ ok (merged ∷ [])
unfolding merge merge_all merge_one index put find eq_key keep_marks keep_tests need to_key truthy
    get get_or set eq_text or_else to_int to_str to_list take_items has_key
merge_all_run = refl

merge-Distinct_example :
    Distinct (map (id_text python) (merged ∷ [])) × (length (merged ∷ []) ≤ max_nodes)
unfolding get get_or eq_text
merge-Distinct_example =
    merge-Distinct python (stored ∷ []) (fresh ∷ fresh ∷ []) (merged ∷ [])
      ((text "x1", refl), ((text "x1", refl), tt)) merge_all_run
