-- ===== src/Scanner/Sample.antt =====
-- A document of nmap and the settings of a scanner, for tests.
use kepryx.Base.{String, some, List, [], ◌∷◌}
use kepryx.Networks.Texts.{sample}
use kepryx.Scanner.{Config}
use kepryx.Scanner.Xml.{Element, element, nil, cons}

abbrev pub leaf : String → List (String × String) → Element
leaf tag attributes = element tag attributes "" nil

-- A host with two addresses and an open and a closed port.
abbrev pub host_element : Element
host_element = element "host" [] "" (
    cons (leaf "status" (("state", "up") ∷ [])) (
      cons (leaf "address" (("addr", "10.1.2.7") ∷ ("addrtype", "ipv4") ∷ [])) (
        cons (leaf "address" (("addr", "AA:BB") ∷ ("addrtype", "mac") ∷ [])) (
          cons
            (element "ports" [] "" (
              cons
                (element "port" (("portid", "22") ∷ []) ""
                  (cons (leaf "state" (("state", "open") ∷ [])) nil))
                (cons
                  (element "port" (("portid", "x") ∷ []) ""
                    (cons (leaf "state" (("state", "closed") ∷ [])) nil))
                  nil)))
            nil))))

abbrev pub down_element : Element
down_element = element "host" [] "" (cons (leaf "status" (("state", "down") ∷ [])) nil)

abbrev pub document : Element
document = element "nmaprun" [] "" (cons down_element (cons host_element nil))

abbrev pub config : Config
config = record {
  texts = sample;
  from_xml = λ _. some document;
  allowed = "10.0.0.0/8" ∷ [];
  limit = 4096;
  timing = "4";
}
