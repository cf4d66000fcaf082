-- ===== src/Tests/Flows.antt =====
-- Flow rules and connections on concrete inputs.
use tinyrange_ad.Common.{[], ◌∷◌, none, some, ◌≡◌, ◌↔◌, inl, inr, refl, true, arith}
use tinyrange_ad.Common.Text.{codes, eqb, has_prefix, split}
use tinyrange_ad.Common.Decimal.{itoa}
use tinyrange_ad.Tags.{contains_any, contains_matching_prefix}
use tinyrange_ad.Net.{ipv4, ip_equal, ip_string, split_host_port}
use tinyrange_ad.Flow.{ParsedFlow, parse_flow, flow_string}
use tinyrange_ad.Flow.RoundTrip.{parse_flow-flow_string}
use tinyrange_ad.Flow.Router.{FlowRouter, handle_connection, handle_conn, dial_context, dial}
use tinyrange_ad.Common.Dict.{bytes_eq}
use tinyrange_ad.Flow.Router.Policy.{Permitted, handle_connection_iff}
use tinyrange_ad.Flow.Router.Connections.{Known, Offers, handle_conn_sound, handle_conn_complete}
use tinyrange_ad.Flow.Router.Dialing.{Dialled, dial_context_sound}
use tinyrange_ad.Tests.{web, vulnbox, scorebot}

abbrev rule : ParsedFlow
rule = record { tag = codes "team"; instance_name = codes "alpha"; service = codes "public" }

parse_flow-flow_string_example : parse_flow (flow_string rule) none ≡ some rule
unfolding has_prefix
parse_flow-flow_string_example =
    parse_flow-flow_string none rule
      (record {
        tag_slash = ground arith;
        tag_colon = ground arith;
        name_slash = ground arith;
        name_colon = ground arith;
        service_colon = ground arith;
      })
      (λ e. cc) refl

handle_connection_iff_example :
    (handle_connection scorebot vulnbox web ≡ true) ↔ Permitted scorebot vulnbox web
handle_connection_iff_example = handle_connection_iff scorebot vulnbox web

abbrev router : FlowRouter
router = (codes "scorebot", scorebot) ∷ (codes "team_alpha", vulnbox) ∷ []

handle_conn_sound_example :
    Known router (ipv4 10 40 10 10) vulnbox × Offers scorebot vulnbox 80 vulnbox.services web
unfolding handle_conn ip_equal handle_connection contains_any eqb contains_matching_prefix
    has_prefix
handle_conn_sound_example = handle_conn_sound router scorebot (ipv4 10 40 10 10) 80 vulnbox web refl

handle_conn_complete_example : ¬ Offers scorebot vulnbox 81 vulnbox.services web
unfolding handle_conn ip_equal
handle_conn_complete_example =
    handle_conn_complete router scorebot (ipv4 10 40 10 10) 81 vulnbox web refl
      (refl, inr (inl refl))

dial_context_sound_example :
    (codes "tcp" ≡ codes "tcp") × Dialled router scorebot (codes "team_alpha:80") vulnbox web
unfolding dial_context eqb split_host_port split ip_string itoa dial contains_any
    contains_matching_prefix has_prefix
dial_context_sound_example =
    dial_context_sound router scorebot (codes "tcp") (codes "team_alpha:80") vulnbox web refl
