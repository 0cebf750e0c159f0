-- ===== src/Runner/FastSend/Tests.antt =====
-- Runs of the fast sender.
use naabu.Prelude.{ℕ, ◌^◌, ◌<◌, ◌≡◌, refl, true, false, [], ◌∷◌, none, some, ok, arith}
use naabu.Prelude.Int.{pos}
use naabu.Prelude.Text.{codes}
use naabu.Net.Cidr.{v4}
use naabu.Runner.FastSend.Ipv4.{
  ipv4, parse_ipv4_fast, format_ipv4, dotted, parse_ipv4_fast-format_ipv4,
}
use naabu.Runner.FastSend.Index.{
  pick_ipv4, build_target_index, pick_ip, bytes_of, pick_ipv4_exact, pick_ipv4-pick_ip,
}
use naabu.Runner.FastSend.Sender.{Handler, new_syn_sender, source_ip, send}
use naabu.Runner.FastSend.Sender.Checksum.{
  segment, IsReady, Verifies, send-Verifies, new_syn_sender-IsReady,
}
use naabu.Runner.FastSend.Samples.{
  private_ip, private_ip-IsBytes, blocks, four, two, four-IsTarget, two-IsTarget, new_sender,
  new_sender-IsReady,
}

parse_ipv4_fast-format_ipv4_example : parse_ipv4_fast (format_ipv4 private_ip) ≡ (private_ip, true)
parse_ipv4_fast-format_ipv4_example = parse_ipv4_fast-format_ipv4 private_ip private_ip-IsBytes

parsed : parse_ipv4_fast (codes "10.0.0.255") ≡ (ipv4 10 0 0 255, true)
unfolding parse_ipv4_fast
parsed = refl

pick_ipv4_exact_example :
    pick_ipv4 (build_target_index blocks (four ∷ two ∷ [])) (pos 5)
    ≡ some (bytes_of 167837697, dotted (bytes_of 167837697))
pick_ipv4_exact_example =
    pick_ipv4_exact blocks (four ∷ []) [] two 167837696 1 (four-IsTarget, tt) two-IsTarget refl
      (omega arith)

pick_ipv4-pick_ip_example :
    pick_ip blocks (λ n. []) (four ∷ two ∷ []) (pos 5) ≡ dotted (bytes_of 167837697)
pick_ipv4-pick_ip_example =
    pick_ipv4-pick_ip blocks (λ n. []) (four ∷ two ∷ []) 5 (four-IsTarget, (two-IsTarget, tt))
      pick_ipv4_exact_example

abbrev handler : Handler
handler = record {
  tcp_conn4 = true;
  source_ip4 = some (v4 3232235527);
  source_hw = false;
  port = 40000;
}

connected : new_syn_sender (some handler) none true ≡ ok new_sender
unfolding new_syn_sender
connected = refl

handler_source : (n : ℕ) → source_ip handler none ≡ ok (some (v4 n)) → n < 2 ^ 32
unfolding source_ip
handler_source n e = ground arith

new_syn_sender-IsReady_example :
    (src4 : ℕ) × (source_ip handler none ≡ ok (some (v4 src4))) × IsReady src4 new_sender
new_syn_sender-IsReady_example = new_syn_sender-IsReady handler none true handler_source connected

send-Verifies_example :
    ((c : ℕ) × ((send new_sender private_ip 443).0 ≡ segment 40000 443 1 c))
    × Verifies 3232235527 private_ip (send new_sender private_ip 443).0
    × IsReady 3232235527 (send new_sender private_ip 443).1
send-Verifies_example =
    send-Verifies 3232235527 new_sender private_ip 443 new_sender-IsReady private_ip-IsBytes
      (omega arith)
