-- ===== src/Runner/Nmap/Tests.antt =====
-- Results of nmap that are taken over, and its arguments.
use naabu.Prelude.{◌≡◌, refl, [], ◌∷◌, ◌&&◌, ◌||◌, ◌=?◌}
use naabu.Prelude.Int.{pos, int_eq}
use naabu.Prelude.Text.{codes, text_eq, is_space}
use naabu.Net.Protocol.{tcp}
use naabu.Results.{Result, new_result, add_port, ip_has_port}
use naabu.Runner.Ports.{bare}
use naabu.Runner.Nmap.{text_words, text_fields, filter_args, update_port_with_service_info}
use naabu.Runner.Nmap.Updated.{ip_has_port-update_port}

abbrev web : Result
web = add_port (codes "10.0.0.1") (bare tcp (pos 80)) new_result

ip_has_port-update_port_example :
    ip_has_port
      (codes "10.0.0.1")
      (bare tcp (pos 22))
      (update_port_with_service_info (codes "10.0.0.1") (bare tcp (pos 22)) web)
    ≡ ((codes "10.0.0.1" =? codes "10.0.0.1") && (pos 22 =? pos 22)
        || ip_has_port (codes "10.0.0.1") (bare tcp (pos 22)) web)
ip_has_port-update_port_example =
    ip_has_port-update_port (codes "10.0.0.1") (codes "10.0.0.1") (bare tcp (pos 22))
      (bare tcp (pos 22)) web

without_xml :
    filter_args (text_fields (codes "-sV  -oX out.xml -Pn")) []
    ≡ (codes "-sV" ∷ codes "-Pn" ∷ [], codes "out.xml")
unfolding filter_args text_fields text_words is_space
without_xml = refl
