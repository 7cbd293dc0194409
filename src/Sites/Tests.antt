-- ===== src/Sites/Tests.antt =====
-- A pasted link whose site answers only through the tunnel.
use free_net_hub.Prelude.{Bool, true, false, none, some}
use free_net_hub.Text.{Tables, text}
use free_net_hub.Sites.{Network, Probe, ran, Diagnosis, regional_403_improved}

abbrev tables : Tables
tables = record { lower_other = λ s. s; upper_other = λ s. s; idna_other = λ s. none }

-- Every link is one of a.net, which forbids the direct request alone.
abbrev net : Network
net = record {
  urlsplit = λ s. some record {
    scheme = text "https";
    username = none;
    password = none;
    hostname = some (text "a.net");
    port = some none;
  };
  is_ip = λ s. false;
  decimal_other = λ s. none;
  curl = λ proxy host. if_tunnel proxy;
}
  where
    if_tunnel : Bool → Probe
    if_tunnel true = ran 0 (text "200")
    if_tunnel false = ran 0 (text "403\n")

abbrev improved : Diagnosis
improved = record {
  host = text "a.net";
  direct_code = 403;
  tunnel_code = 200;
  suggest_add = true;
  result = regional_403_improved;
}
