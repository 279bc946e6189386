-- ===== src/Message/Tests.antt =====
-- Witnesses and tests for the messages.
use muondetector_cluster.Prelude.{◌≡◌, refl, List, [], ◌∷◌, some, arith, Text, All}
use muondetector_cluster.Prelude.Texts.{codes}
use muondetector_cluster.Message.{MessageParser, parse}
use muondetector_cluster.Message.Words.{words, pieces, IsClean}
use muondetector_cluster.Message.Parsing.{parse_lem}
use muondetector_cluster.Message.Joining.{add_fields, parse-add_fields}

abbrev topic : Text
topic = codes "muonpi//l1data/kai/"

abbrev names : List Text
names = codes "muonpi" ∷ codes "l1data" ∷ codes "kai" ∷ []

topic_fields : words b'/' topic ≡ names
unfolding words pieces
topic_fields = refl

names-IsClean : All (IsClean b'/') names
names-IsClean = (((cc), omega arith), (((cc), omega arith), (((cc), omega arith), tt)))

parse_lem_example :
    parse topic b'/'
    ≡ some (record { content = topic; iterator = []; delimiter = b'/'; fields = words b'/' topic })
parse_lem_example = parse_lem topic b'/'

parse-add_fields_example :
    (p : MessageParser) × (parse
        (add_fields names (record { message = []; delimiter = b'/' })).message
        b'/'
      ≡ some p)
    × (p.fields ≡ names)
parse-add_fields_example = parse-add_fields b'/' names names-IsClean
