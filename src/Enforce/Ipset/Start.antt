-- ===== src/Enforce/Ipset/Start.antt =====
-- What the ipset backend guarantees once it has started.
use federloom.Prelude.{
  ◌≡◌, sym, ap, ◌∙◌, false≢true, inl, inr, ◌⊎◌, Bool, true, Bool-cases, if_elim, String, List, [],
  ◌∷◌, All,
}
use mathlib.Core.List.{Memᴰ}
use federloom.Enforce.{Command, Log, Ran, exec}
use federloom.Enforce.Ipset.{
  IpsetSink, create, rule, set6, drop_rules, create_set, install_rule, install_rules, start,
}

-- A command that ran with success.
abbrev pub Succeeded : Command → Log → Type 0
Succeeded c log = Memᴰ (c, true) log

-- The rule of a chain is there: it was checked, or inserted.
abbrev pub HasRule : String → Log → String → Type 0
HasRule set log chain =
    Succeeded (rule "iptables" "-C" chain set) log ⊎ Succeeded (rule "iptables" "-I" chain set) log

module _ (answers : Log → Command → Bool) where
  exec_success :
      (c : Command) (log : Log) → (exec answers c log).0 ≡ true → Succeeded c (exec answers c log).1
  exec_success c log h = Memᴰ.head (ap (λ b. (c, b)) (sym h))

  create_set_success :
      (tables set kind family : String) (chains : List String) (log : Log)
      → (create_set answers tables set kind family chains log).0 ≡ true
      → Succeeded (create set kind family) (create_set answers tables set kind family chains log).1
  unfolding create_set
  create_set_success tables set kind family chains log =
      if_elim (λ (r : Ran). r.0 ≡ true → Succeeded (create set kind family) r.1)
        (answers log (create set kind family)) _ _ (λ made. exec_success _ log)
        (λ failed. exec_success _ _)

  exec_keeps : (c d : Command) (log : Log) → Succeeded d log → Succeeded d (exec answers c log).1
  exec_keeps c d log h = Memᴰ.tail h

  drop_rules_keeps :
      (d : Command) (tables set : String) (chains : List String) (log : Log)
      → Succeeded d log
      → Succeeded d (drop_rules answers tables set chains log)
  unfolding drop_rules
  drop_rules_keeps d tables set [] log h = h
  drop_rules_keeps d tables set (chain ∷ chains) log h =
      drop_rules_keeps d tables set chains _ (Memᴰ.tail h)

  create_set_keeps :
      (d : Command) (tables set kind family : String) (chains : List String) (log : Log)
      → Succeeded d log
      → Succeeded d (create_set answers tables set kind family chains log).1
  unfolding create_set
  create_set_keeps d tables set kind family chains log h =
      elim (Bool-cases (answers log (create set kind family))) [
        | inl made ↦ rw (made, create_set) (Memᴰ.tail h)
        | inr failed ↦
            rw (failed, create_set)
              (Memᴰ.tail (Memᴰ.tail (drop_rules_keeps d tables set chains _ (Memᴰ.tail h))))
      ]

  install_rule_keeps :
      (d : Command) (tables chain set : String) (log : Log)
      → Succeeded d log
      → Succeeded d (install_rule answers tables chain set log).1
  unfolding install_rule
  install_rule_keeps d tables chain set log h =
      elim (Bool-cases (answers log (rule tables "-C" chain set))) [
        | inl there ↦ rw (there, install_rule) (Memᴰ.tail h)
        | inr missing ↦ rw (missing, install_rule) (Memᴰ.tail (Memᴰ.tail h))
      ]

  install_rule_success :
      (chain set : String) (log : Log)
      → (install_rule answers "iptables" chain set log).0 ≡ true
      → HasRule set (install_rule answers "iptables" chain set log).1 chain
  unfolding install_rule
  install_rule_success chain set log =
      if_elim (λ (r : Ran). r.0 ≡ true → HasRule set r.1 chain)
        (answers log (rule "iptables" "-C" chain set)) _ _ (λ there h. inl (exec_success _ log h))
        (λ missing h. inr (exec_success _ _ h))

  install_rules_keeps :
      (d : Command) (s : IpsetSink) (chains : List String) (log : Log)
      → Succeeded d log
      → Succeeded d (install_rules answers s chains log).1
  unfolding install_rules
  install_rules_keeps d s [] log h = h
  install_rules_keeps d s (chain ∷ chains) log h =
      let four = install_rule answers "iptables" chain s.set_name log in
      let kept = install_rule_keeps d "iptables" chain s.set_name log h in
      if_elim (λ (r : Ran). Succeeded d r.1) four.0 _ four
        (λ made.
          install_rules_keeps d s chains _
            (install_rule_keeps d "ip6tables" chain (set6 s) four.1 kept))
        (λ failed. kept)

  HasRule-install_rules :
      (s : IpsetSink) (chains : List String) (log : Log) (chain : String)
      → HasRule s.set_name log chain
      → HasRule s.set_name (install_rules answers s chains log).1 chain
  HasRule-install_rules s chains log chain h = elim h [
    | inl checked ↦ inl (install_rules_keeps _ s chains log checked)
    | inr inserted ↦ inr (install_rules_keeps _ s chains log inserted)
  ]

  rule_keeps :
      (tables chain other set : String) (s : IpsetSink) (log : Log)
      → HasRule s.set_name log chain
      → HasRule s.set_name (install_rule answers tables other set log).1 chain
  rule_keeps tables chain other set s log h = elim h [
    | inl checked ↦ inl (install_rule_keeps _ tables other set log checked)
    | inr inserted ↦ inr (install_rule_keeps _ tables other set log inserted)
  ]

  install_rules_success :
      (s : IpsetSink) (chains : List String) (log : Log)
      → (install_rules answers s chains log).0 ≡ true
      → All (HasRule s.set_name (install_rules answers s chains log).1) chains
  unfolding install_rules
  install_rules_success s [] log h = tt
  install_rules_success s (chain ∷ chains) log success =
      let four = install_rule answers "iptables" chain s.set_name log in
      let six = install_rule answers "ip6tables" chain (set6 s) four.1 in
      if_elim (λ (r : Ran). r.0 ≡ true → All (HasRule s.set_name r.1) (chain ∷ chains)) four.0 _
        four
        (λ made h. (
          HasRule-install_rules s chains six.1 chain (
              rule_keeps "ip6tables" chain chain (set6 s) s four.1
                (install_rule_success chain s.set_name log made)),
          install_rules_success s chains six.1 h,
        ))
        (λ failed h. absurd (false≢true (sym failed ∙ h))) success

  -- Whatever the commands answer: when the backend starts without an error, the creation of the
  -- IPv4 set has succeeded, and for every chain the IPv4 rule of that set was found or inserted
  -- with success. The migration of an old set and all that concerns IPv6 may fail.
  pub start_lem :
      (s : IpsetSink) (log : Log)
      → (start answers s log).0 ≡ true
      → Succeeded (create s.set_name "hash:ip" "inet") (start answers s log).1
        × All (HasRule s.set_name (start answers s log).1) s.chains
  unfolding start
  start_lem s log =
      let four = create_set answers "iptables" s.set_name "hash:ip" "inet" s.chains log in
      let six = create_set answers "ip6tables" (set6 s) "hash:net" "inet6" s.chains four.1 in
      let made = create_set_success "iptables" s.set_name "hash:ip" "inet" s.chains log in
      if_elim
        (λ (r : Ran).
          r.0 ≡ true
          → Succeeded (create s.set_name "hash:ip" "inet") r.1
            × All (HasRule s.set_name r.1) s.chains)
        four.0 _ four
        (λ created h. (
          install_rules_keeps _ s s.chains six.1 (
              create_set_keeps _ "ip6tables" (set6 s) "hash:net" "inet6" s.chains four.1
                (made created)),
          install_rules_success s s.chains six.1 h,
        ))
        (λ failed h. absurd (false≢true (sym failed ∙ h)))
