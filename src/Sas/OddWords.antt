-- ===== src/Sas/OddWords.antt =====
-- pgpWordsOdd (src/pgpwords.c).
use bzrtp.Common.{Bytes, codes, List, [], ◌∷◌}

abbrev pub pgp_words_odd : List Bytes
pgp_words_odd =
    codes "adroitness"
    ∷ codes "adviser"
    ∷ codes "aftermath"
    ∷ codes "aggregate"
    ∷ codes "alkali"
    ∷ codes "almighty"
    ∷ codes "amulet"
    ∷ codes "amusement"
    ∷ codes "antenna"
    ∷ codes "applicant"
    ∷ codes "Apollo"
    ∷ codes "armistice"
    ∷ codes "article"
    ∷ codes "asteroid"
    ∷ codes "Atlantic"
    ∷ codes "atmosphere"
    ∷ codes "autopsy"
    ∷ codes "Babylon"
    ∷ codes "backwater"
    ∷ codes "barbecue"
    ∷ codes "belowground"
    ∷ codes "bifocals"
    ∷ codes "bodyguard"
    ∷ codes "bookseller"
    ∷ codes "borderline"
    ∷ codes "bottomless"
    ∷ codes "Bradbury"
    ∷ codes "bravado"
    ∷ codes "Brazilian"
    ∷ codes "breakaway"
    ∷ codes "Burlington"
    ∷ codes "businessman"
    ∷ codes "butterfat"
    ∷ codes "Camelot"
    ∷ codes "candidate"
    ∷ codes "cannonball"
    ∷ codes "Capricorn"
    ∷ codes "caravan"
    ∷ codes "caretaker"
    ∷ codes "celebrate"
    ∷ codes "cellulose"
    ∷ codes "certify"
    ∷ codes "chambermaid"
    ∷ codes "Cherokee"
    ∷ codes "Chicago"
    ∷ codes "clergyman"
    ∷ codes "coherence"
    ∷ codes "combustion"
    ∷ codes "commando"
    ∷ codes "company"
    ∷ codes "component"
    ∷ codes "concurrent"
    ∷ codes "confidence"
    ∷ codes "conformist"
    ∷ codes "congregate"
    ∷ codes "consensus"
    ∷ codes "consulting"
    ∷ codes "corporate"
    ∷ codes "corrosion"
    ∷ codes "councilman"
    ∷ codes "crossover"
    ∷ codes "crucifix"
    ∷ codes "cumbersome"
    ∷ codes "customer"
    ∷ codes "Dakota"
    ∷ codes "decadence"
    ∷ codes "December"
    ∷ codes "decimal"
    ∷ codes "designing"
    ∷ codes "detector"
    ∷ codes "detergent"
    ∷ codes "determine"
    ∷ codes "dictator"
    ∷ codes "dinosaur"
    ∷ codes "direction"
    ∷ codes "disable"
    ∷ codes "disbelief"
    ∷ codes "disruptive"
    ∷ codes "distortion"
    ∷ codes "document"
    ∷ codes "embezzle"
    ∷ codes "enchanting"
    ∷ codes "enrollment"
    ∷ codes "enterprise"
    ∷ codes "equation"
    ∷ codes "equipment"
    ∷ codes "escapade"
    ∷ codes "Eskimo"
    ∷ codes "everyday"
    ∷ codes "examine"
    ∷ codes "existence"
    ∷ codes "exodus"
    ∷ codes "fascinate"
    ∷ codes "filament"
    ∷ codes "finicky"
    ∷ codes "forever"
    ∷ codes "fortitude"
    ∷ codes "frequency"
    ∷ codes "gadgetry"
    ∷ codes "Galveston"
    ∷ codes "getaway"
    ∷ codes "glossary"
    ∷ codes "gossamer"
    ∷ codes "graduate"
    ∷ codes "gravity"
    ∷ codes "guitarist"
    ∷ codes "hamburger"
    ∷ codes "Hamilton"
    ∷ codes "handiwork"
    ∷ codes "hazardous"
    ∷ codes "headwaters"
    ∷ codes "hemisphere"
    ∷ codes "hesitate"
    ∷ codes "hideaway"
    ∷ codes "holiness"
    ∷ codes "hurricane"
    ∷ codes "hydraulic"
    ∷ codes "impartial"
    ∷ codes "impetus"
    ∷ codes "inception"
    ∷ codes "indigo"
    ∷ codes "inertia"
    ∷ codes "infancy"
    ∷ codes "inferno"
    ∷ codes "informant"
    ∷ codes "insincere"
    ∷ codes "insurgent"
    ∷ codes "integrate"
    ∷ codes "intention"
    ∷ codes "inventive"
    ∷ codes "Istanbul"
    ∷ codes "Jamaica"
    ∷ codes "Jupiter"
    ∷ codes "leprosy"
    ∷ codes "letterhead"
    ∷ codes "liberty"
    ∷ codes "maritime"
    ∷ codes "matchmaker"
    ∷ codes "maverick"
    ∷ codes "Medusa"
    ∷ codes "megaton"
    ∷ codes "microscope"
    ∷ codes "microwave"
    ∷ codes "midsummer"
    ∷ codes "millionaire"
    ∷ codes "miracle"
    ∷ codes "misnomer"
    ∷ codes "molasses"
    ∷ codes "molecule"
    ∷ codes "Montana"
    ∷ codes "monument"
    ∷ codes "mosquito"
    ∷ codes "narrative"
    ∷ codes "nebula"
    ∷ codes "newsletter"
    ∷ codes "Norwegian"
    ∷ codes "October"
    ∷ codes "Ohio"
    ∷ codes "onlooker"
    ∷ codes "opulent"
    ∷ codes "Orlando"
    ∷ codes "outfielder"
    ∷ codes "Pacific"
    ∷ codes "pandemic"
    ∷ codes "Pandora"
    ∷ codes "paperweight"
    ∷ codes "paragon"
    ∷ codes "paragraph"
    ∷ codes "paramount"
    ∷ codes "passenger"
    ∷ codes "pedigree"
    ∷ codes "Pegasus"
    ∷ codes "penetrate"
    ∷ codes "perceptive"
    ∷ codes "performance"
    ∷ codes "pharmacy"
    ∷ codes "phonetic"
    ∷ codes "photograph"
    ∷ codes "pioneer"
    ∷ codes "pocketful"
    ∷ codes "politeness"
    ∷ codes "positive"
    ∷ codes "potato"
    ∷ codes "processor"
    ∷ codes "provincial"
    ∷ codes "proximate"
    ∷ codes "puberty"
    ∷ codes "publisher"
    ∷ codes "pyramid"
    ∷ codes "quantity"
    ∷ codes "racketeer"
    ∷ codes "rebellion"
    ∷ codes "recipe"
    ∷ codes "recover"
    ∷ codes "repellent"
    ∷ codes "replica"
    ∷ codes "reproduce"
    ∷ codes "resistor"
    ∷ codes "responsive"
    ∷ codes "retraction"
    ∷ codes "retrieval"
    ∷ codes "retrospect"
    ∷ codes "revenue"
    ∷ codes "revival"
    ∷ codes "revolver"
    ∷ codes "sandalwood"
    ∷ codes "sardonic"
    ∷ codes "Saturday"
    ∷ codes "savagery"
    ∷ codes "scavenger"
    ∷ codes "sensation"
    ∷ codes "sociable"
    ∷ codes "souvenir"
    ∷ codes "specialist"
    ∷ codes "speculate"
    ∷ codes "stethoscope"
    ∷ codes "stupendous"
    ∷ codes "supportive"
    ∷ codes "surrender"
    ∷ codes "suspicious"
    ∷ codes "sympathy"
    ∷ codes "tambourine"
    ∷ codes "telephone"
    ∷ codes "therapist"
    ∷ codes "tobacco"
    ∷ codes "tolerance"
    ∷ codes "tomorrow"
    ∷ codes "torpedo"
    ∷ codes "tradition"
    ∷ codes "travesty"
    ∷ codes "trombonist"
    ∷ codes "truncated"
    ∷ codes "typewriter"
    ∷ codes "ultimate"
    ∷ codes "undaunted"
    ∷ codes "underfoot"
    ∷ codes "unicorn"
    ∷ codes "unify"
    ∷ codes "universe"
    ∷ codes "unravel"
    ∷ codes "upcoming"
    ∷ codes "vacancy"
    ∷ codes "vagabond"
    ∷ codes "vertigo"
    ∷ codes "Virginia"
    ∷ codes "visitor"
    ∷ codes "vocalist"
    ∷ codes "voyager"
    ∷ codes "warranty"
    ∷ codes "Waterloo"
    ∷ codes "whimsical"
    ∷ codes "Wichita"
    ∷ codes "Wilmington"
    ∷ codes "Wyoming"
    ∷ codes "yesteryear"
    ∷ codes "Yucatan"
    ∷ []
