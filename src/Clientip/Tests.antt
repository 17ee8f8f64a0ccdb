-- ===== src/Clientip/Tests.antt =====
-- Requests through a proxy, and addresses as texts.
use devengine.Common.{
  ◌≡◌, refl, false, none, some, List, [], ◌∷◌, ◌++◌, Text, str, join_with, trim_space, ok, ◌⊎◌,
}
use devengine.Clientip.{v4, v6, contains_byte, unmap}
use devengine.Clientip.Ipv6.{parse_addr}
use devengine.Clientip.Print.{addr_text}
use devengine.Clientip.Headers.{
  Header, x_forwarded_for, x_real_ip, parse_bare_addr, parse_forwarded_node, prepend_to,
}
use devengine.Clientip.Resolve.{Resolver, Request, new, contains, parse_remote_addr, resolve}
use devengine.Clientip.Client.{Named, TrustedPeer, Untrusted, resolve-Named, resolve-Untrusted}
use devengine.Clientip.Forged.{resolve_forged}
use devengine.Clientip.Configured.{IsConfigured, new-IsConfigured}

loopback : parse_addr (str "::1") ≡ some (v6 1 [])
unfolding parse_addr
loopback = refl

mixed :
    parse_addr (str "64:ff9b::192.0.2.33") ≡ some (v6 0x0064_ff9b_0000_0000_0000_0000_c000_0221 [])
unfolding parse_addr
mixed = refl

too_long : parse_addr (str "1:2:3:4:5:6:7::8") ≡ none
unfolding parse_addr
too_long = refl

printed : addr_text (v6 0x2001_0db8_0000_0000_0001_0000_0000_0001 []) ≡ str "2001:db8::1:0:0:1"
unfolding addr_text
printed = refl

quoted_node :
    parse_forwarded_node (str "\"[2001:db8::1]:4711\"")
    ≡ some (v6 0x2001_0db8_0000_0000_0000_0000_0000_0001 [])
unfolding parse_forwarded_node prepend_to unmap
quoted_node = refl

abbrev resolver : Resolver
resolver = record {
  trusted = record { addr = v4 0x0a00_0000; bits = 8 } ∷ [];
  priority = x_forwarded_for ∷ x_real_ip ∷ [];
}

accepted : new (str " 10.0.0.1/8" ∷ []) (str "x-forwarded-for" ∷ str "X-Real-IP" ∷ []) ≡ ok resolver
unfolding new
accepted = refl

new-IsConfigured_example :
    IsConfigured (str " 10.0.0.1/8" ∷ []) (str "x-forwarded-for" ∷ str "X-Real-IP" ∷ []) resolver
new-IsConfigured_example = new-IsConfigured _ _ resolver accepted

abbrev forwarded_for : Text → Header → List Text
forwarded_for t x_forwarded_for = t ∷ []
forwarded_for t h = []

-- The client wrote "1.1.1.1" itself, and the proxy appended its address.
abbrev request : Request
request = record {
  remote_addr = str "10.0.0.7:4711";
  values = forwarded_for (str "1.1.1.1, 192.0.2.33");
}

resolved : resolve resolver (some request) ≡ str "192.0.2.33"
unfolding resolve join_with
resolved = refl

peer_trusted : TrustedPeer resolver request (v4 0x0a00_0007) (str "10.0.0.7")
unfolding parse_remote_addr contains
peer_trusted = (refl, refl)

resolve-Named_example :
    Named resolver request
      (str "10.0.0.7")
      (x_forwarded_for ∷ x_real_ip ∷ [])
      (resolve resolver (some request))
resolve-Named_example =
    resolve-Named resolver request (v4 0x0a00_0007) (str "10.0.0.7") peer_trusted

abbrev direct : Request
direct = record { remote_addr = str "192.0.2.33:80"; values = forwarded_for (str "10.0.0.1") }

abbrev silent : Request
silent = record { remote_addr = str "192.0.2.33:80"; values = λ h. [] }

direct-Untrusted : Untrusted resolver (parse_remote_addr direct.remote_addr)
unfolding parse_remote_addr contains
direct-Untrusted = refl

resolve-Untrusted_example : resolve resolver (some silent) ≡ resolve resolver (some direct)
resolve-Untrusted_example = resolve-Untrusted resolver direct silent direct-Untrusted refl

request_joined :
    join_with (str ",") (request.values x_forwarded_for) ≡ str "1.1.1.1" ++ b',' ∷ str " 192.0.2.33"
unfolding join_with
request_joined = refl

hop_lacks : contains_byte b',' (str " 192.0.2.33") ≡ false
unfolding contains_byte
hop_lacks = refl

hop_parsed : parse_bare_addr (trim_space (str " 192.0.2.33")) ≡ some (v4 0xc000_0221)
unfolding parse_bare_addr trim_space unmap
hop_parsed = refl

hop_untrusted : contains resolver (v4 0xc000_0221) ≡ false
unfolding contains unmap
hop_untrusted = refl

resolve_forged_example :
    (resolve resolver (some request) ≡ addr_text (v4 0xc000_0221))
    ⊎ (resolve resolver (some request) ≡ str "10.0.0.7")
resolve_forged_example =
    resolve_forged resolver request (v4 0x0a00_0007) (str "10.0.0.7") (x_real_ip ∷ [])
      (str "1.1.1.1") (str " 192.0.2.33") (v4 0xc000_0221) peer_trusted refl request_joined
      hop_lacks hop_parsed hop_untrusted
